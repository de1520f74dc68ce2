-- ===== src/GcRegion/Types.antt =====
-- The regions of src/gc/gc_types.h, the state of the region manager of src/gc/gc_region.h, and its
-- lists and counters.
use nomalloc.Prelude.{
  ℕ, ◌+◌, ◌*◌, Bool, false, ◌||◌, List, [], ◌∷◌, ◌++◌, Option, none, some, ◌==◌, if◌then◌else◌, u64,
  sub64,
}
use nomalloc.Memory.{Memory}

pub data RegionType : Type 0 where
  empty young survivor old humongous pinned : RegionType

-- The values of the enumeration.
abbrev pub code : RegionType → ℕ
code empty = 0
code young = 1
code survivor = 2
code old = 3
code humongous = 4
code pinned = 5

abbrev pub gc_max_regions : ℕ
gc_max_regions = 1024

abbrev pub gc_region_size_default : ℕ
gc_region_size_default = 2 * 1024 * 1024

pub record Region : Type 0 where
  pub id : ℕ
  pub kind : RegionType
  pub prev_type : RegionType
  pub base_addr : ℕ
  pub size : ℕ
  pub allocated_bytes : ℕ
  pub live_bytes : ℕ
  pub garbage_bytes : ℕ
  pub marking_bitmap : List ℕ
  pub live_bitmap : List ℕ
  pub bitmap_size : ℕ
  pub age : ℕ
  pub gc_epoch : ℕ
  pub needs_reclaim : Bool
  pub is_compacting_target : Bool
  pub is_relocation_target : Bool

-- `lists` holds the six `*_regions` heads and `counts` the six `*_region_count` fields.
pub record RegionManager : Type 0 where
  pub regions : ℕ → Option Region
  pub num_regions : ℕ
  pub max_regions : ℕ
  pub lists : RegionType → List ℕ
  pub counts : RegionType → ℕ
  pub total_size : ℕ
  pub used_size : ℕ
  pub young_gen_target_size : ℕ
  pub old_gen_target_size : ℕ
  pub survivor_target_size : ℕ
  pub memory : Memory

unfoldable pub gc_region_manager_init : Memory → RegionManager
gc_region_manager_init m = record {
  regions = λ i. none;
  num_regions = 0;
  max_regions = gc_max_regions;
  lists = λ t. [];
  counts = λ t. 0;
  total_size = 0;
  used_size = 0;
  young_gen_target_size = gc_region_size_default * 10;
  old_gen_target_size = gc_region_size_default * 100;
  survivor_target_size = gc_region_size_default * 2;
  memory = m;
}

-- `list_add_tail`
unfoldable pub link : RegionType → ℕ → (RegionType → List ℕ) → RegionType → List ℕ
link t id lists u = if code u == code t then lists u ++ (id ∷ []) else lists u

unfoldable pub remove : ℕ → List ℕ → List ℕ
remove id [] = []
remove id (x ∷ xs) = if x == id then xs else x ∷ remove id xs

unfoldable pub linked : ℕ → List ℕ → Bool
linked id [] = false
linked id (x ∷ xs) = x == id || linked id xs

-- `list_del`
unfoldable pub list_del : ℕ → (RegionType → List ℕ) → Option (RegionType → List ℕ)
list_del id lists =
    if linked id (lists empty)
      || linked id (lists young)
      || linked id (lists survivor)
      || linked id (lists old)
      || linked id (lists humongous)
      || linked id (lists pinned)
    then some (λ t. remove id (lists t))
    else none

-- A counter goes up or down by 1.
unfoldable pub count_up : RegionType → (RegionType → ℕ) → RegionType → ℕ
count_up t counts u = if code u == code t then u64 (counts u + 1) else counts u

unfoldable pub count_down : RegionType → (RegionType → ℕ) → RegionType → ℕ
count_down t counts u = if code u == code t then sub64 (counts u) 1 else counts u

unfoldable pub put : ℕ → Region → (ℕ → Option Region) → ℕ → Option Region
put id r regions i = if i == id then some r else regions i
