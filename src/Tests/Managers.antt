-- ===== src/Tests/Managers.antt =====
-- The table of arenas and the garbage collector's regions.
use nomalloc.Prelude.{
  ℕ, zero, suc, ◌<◌, ◌≤◌, ◌≡◌, ◌≢◌, refl, sym, ◌∙◌, false, arith, List, [], ◌∷◌, Option, some, none,
  if◌then◌else◌, ◌==◌, get_or, replicate,
}
use nomalloc.Libc.{bump_libc}
use nomalloc.Arena.{Arena, Outcome, arena_manager_init, arena_create}
use nomalloc.Arena.Manager.{IsTable}
use nomalloc.GcRegion.Types.{RegionType, empty, young, old, code, Region, RegionManager}
use nomalloc.GcRegion.Manager.{gc_region_age}
use nomalloc.GcRegion.Ledger.{IsLedger, occ, member, aged_kind, gc_region_age-IsLedger}
use nomalloc.GcRegion.Marks.{IsInside}

abbrev no_arena : Option Arena
no_arena = none

get_or_nulls : (n i : ℕ) → get_or (replicate n no_arena) i none ≡ none
get_or_nulls zero i = refl
get_or_nulls (suc n) zero = refl
get_or_nulls (suc n) (suc i) = get_or_nulls n i

none_some : {a : Arena} → no_arena ≢ some a
none_some e = ground arith

first-IsTable : IsTable arena_manager_init
unfolding arena_manager_init
first-IsTable = record {
  places = refl;
  bounded = omega arith;
  in_place = λ i a e. absurd (none_some (sym (get_or_nulls 64 i) ∙ e));
}

-- A young region of 4096 bytes at 8192, the only one, about to be promoted.
abbrev pub young_region : Region
young_region = record {
  id = 0;
  kind = young;
  prev_type = empty;
  base_addr = 8192;
  size = 4096;
  allocated_bytes = 100;
  live_bytes = 40;
  garbage_bytes = 0;
  marking_bitmap = replicate 8 0;
  live_bitmap = replicate 8 0;
  bitmap_size = 512;
  age = 1;
  gc_epoch = 0;
  needs_reclaim = false;
  is_compacting_target = false;
  is_relocation_target = false;
}

abbrev old_region : Region
old_region = record young_region { kind = old }

abbrev pub only_region : Region → ℕ → Option Region
only_region r zero = some r
only_region r (suc i) = none

abbrev pub only_list : RegionType → RegionType → List ℕ
only_list t u = if code u == code t then 0 ∷ [] else []

-- A manager with one region.
abbrev pub one_region : Region → RegionManager
one_region r = record {
  regions = only_region r;
  num_regions = 1;
  max_regions = 1024;
  lists = only_list r.kind;
  counts = λ u. if code u == code r.kind then 1 else 0;
  total_size = 4096;
  used_size = 4096;
  young_gen_target_size = 0;
  old_gen_target_size = 0;
  survivor_target_size = 0;
  memory = λ x. 9;
}

pub one_region-IsLedger : (r : Region) → IsLedger (one_region r)
unfolding occ member
one_region-IsLedger r = record { members = λ i u. one_member i u; tallies = λ u. ground arith }
  where
    one_member :
        (i : ℕ) (u : RegionType)
        → occ i ((one_region r).lists u) ≡ member u ((one_region r).regions i)
    one_member zero u = ground arith
    one_member (suc i) u = ground arith

gc_region_age-IsLedger_example :
    (g' : RegionManager) × (gc_region_age young_region (one_region young_region) ≡ some g')
    × IsLedger g'
    × (g'.regions 0 ≡ some (record young_region { age = 2; kind = aged_kind young 2 }))
gc_region_age-IsLedger_example =
    gc_region_age-IsLedger young_region (one_region young_region) (one_region-IsLedger young_region)
      refl (omega arith)

inside : (p : ℕ) → 8192 ≤ p → p < 12288 → IsInside young_region p
inside p low high = record {
  above = low;
  below = high;
  address = omega arith;
  not_null = omega arith;
  bits = omega arith;
}

-- What the first `arena_create` leaves.
abbrev first_outcome : Outcome ℕ
first_outcome = arena_create bump_libc 200 3 arena_manager_init 1 (λ x. 0)
