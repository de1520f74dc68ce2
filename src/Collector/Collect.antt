-- ===== src/Collector/Collect.antt =====
-- The collections of src/gc/gc.c. `none` is a fault, or a walk along a list that leaves it.
use nomalloc.Prelude.{
  ℕ, zero, suc, ◌+◌, ◌*◌, ◌/◌, ◌%◌, Bool, true, false, not, ◌&&◌, ◌||◌, List, [], ◌∷◌, Option, none,
  some, ltb, ◌==◌, if◌then◌else◌, u64, sub64, length,
}
use nomalloc.Bitmap.{bitmap_init}
use nomalloc.GcRegion.Types.{young, survivor, old, code, Region, put}
use nomalloc.GcRegion.Manager.{gc_region_age}
use nomalloc.Collector.State.{
  mark_start, cleanup, phase_idle, mixed_reclaim_start, mixed_reclaim, state_idle, young_gc,
  mixed_gc, full_gc, GcResult, success, failure, busy, GcStats, Gc,
}

-- What the clock shows around a collection and around its reclaiming.
pub record Clock : Type 0 where
  pub start : ℕ
  pub reclaim_start : ℕ
  pub reclaim_end : ℕ
  pub stop : ℕ

abbrev pub marked : Region → Region
marked r = record r {
  live_bitmap = bitmap_init r.bitmap_size false;
  marking_bitmap = bitmap_init r.bitmap_size false;
  live_bytes = r.allocated_bytes;
}

unfoldable pub gc_mark_region : Region → Gc → Gc
gc_mark_region r g = if code r.kind == 0 then g else record g {
  manager = record (g.manager) { regions = put r.id (marked r) g.manager.regions };
  marked_bytes = u64 (g.marked_bytes + r.allocated_bytes);
}

-- A walk that marks the regions of a list and leaves the list alone.
unfoldable pub mark_list : List ℕ → Gc → Option Gc
mark_list [] g = some g
mark_list (id ∷ ids) g = elim (g.manager.regions id) [
  | none ↦ none
  | some r ↦ mark_list ids (gc_mark_region r g)
]

unfoldable pub gc_mark_all_regions : Gc → Option Gc
gc_mark_all_regions g = elim (mark_list (g.manager.lists young) g) [
  | none ↦ none
  | some g' ↦ elim (mark_list (g'.manager.lists survivor) g') [
    | none ↦ none
    | some g'' ↦ mark_list (g''.manager.lists old) g''
  ]
]

-- The walk of `gc_reclaim_regions` takes its regions 16 bytes too low: it walks the list of the
-- member `list` as one of the member `reclaim_list`, which lies 16 bytes behind it. So it finds
-- the base address where the allocated bytes are, the size where the live bytes are, and the
-- second byte of the number of bits where the mark of a compaction target is. A region that it
-- takes up is cleared from the address that the identities form on, over as many bytes as the
-- base address has over the size: the fault.
unfoldable pub taken_up : Region → Bool
taken_up r = (r.base_addr == 0 || ltb (2 * r.size) r.base_addr) && r.bitmap_size / 256 % 256 == 0

unfoldable pub reclaim_walk : List ℕ → (ℕ → Option Region) → Bool
reclaim_walk [] regions = true
reclaim_walk (id ∷ ids) regions =
    let rest = reclaim_walk ids regions in
    elim (regions id) [ none ↦ false | some r ↦ if taken_up r then false else rest ]

-- The bytes freed and the time that `pause_time` is set to. No region is ever reclaimed: the
-- first one that is taken up ends the walk.
unfoldable pub gc_reclaim_regions : Clock → Gc → Option (ℕ × ℕ)
gc_reclaim_regions t g =
    if reclaim_walk (g.manager.lists old) g.manager.regions
    then some (0, sub64 t.reclaim_end t.reclaim_start)
    else none

abbrev pub freed_stats : ℕ → ℕ → GcStats → GcStats
freed_stats freed pause s = record s {
  bytes_freed = u64 (s.bytes_freed + freed);
  pause_time_ns = u64 (s.pause_time_ns + pause);
}

abbrev pub young_stats : GcStats → GcStats
young_stats s = record s {
  gc_count = u64 (s.gc_count + 1);
  young_gc_count = u64 (s.young_gc_count + 1);
}

unfoldable pub gc_collect : Clock → Gc → Option (GcResult × Gc)
gc_collect t g =
    let g1 = record g {
      current_epoch = u64 (g.current_epoch + 1);
      state = young_gc;
      phase = mark_start;
      concurrent_active = true;
      stats = young_stats g.stats;
    } in
    if not g.initialized || not g.active then some (failure, g) else elim (gc_mark_all_regions g1) [
      | none ↦ none
      | some g2 ↦ elim (gc_reclaim_regions t (record g2 { phase = cleanup })) [
        | none ↦ none
        | some (freed, pause) ↦
            let s = freed_stats freed pause g2.stats in
            some (
              success,
              record g2 {
                stats = record s { gc_time_ns = u64 (s.gc_time_ns + sub64 t.stop t.start) };
                state = state_idle;
                phase = phase_idle;
                concurrent_active = false;
              },
            )
      ]
    ]

unfoldable pub gc_collect_async : Gc → GcResult × Gc
gc_collect_async g =
    if not g.initialized || not g.active
    then (failure, g)
    else if g.concurrent_active
    then (busy, g)
    else (success, record g { concurrent_active = true })

-- The node behind `id` in a list; the list's head is `none`. The outer `none` is a node that the
-- list does not have.
unfoldable pub next_in : ℕ → List ℕ → Option (Option ℕ)
next_in id [] = none
next_in id (x ∷ []) = if x == id then some none else none
next_in id (x ∷ y ∷ ys) = if x == id then some (some y) else next_in id (y ∷ ys)

-- `gc_region_age` of the region at `id`, as it stands.
unfoldable pub age_in : ℕ → Gc → Option Gc
age_in id g = elim (g.manager.regions id) [
  | none ↦ none
  | some r ↦ elim (gc_region_age r g.manager) [
    | none ↦ none
    | some m ↦ some (record g { manager = m })
  ]
]

-- The body of the walks over the young regions: the region is marked, if `mark` says so, and then
-- aged.
unfoldable pub visit : Bool → Region → Gc → Option Gc
visit mark r g = age_in r.id (if mark then gc_mark_region r g else g)

-- The walk over the young regions at the node `id`. The next node is read after the body; if the
-- body moved the region, it is the end of its new list, whose head the walk takes for a region.
unfoldable pub young_walk : ℕ → Bool → Option ℕ → Gc → Option Gc
young_walk fuel mark none g = some g
young_walk zero mark (some id) g = none
young_walk (suc fuel) mark (some id) g = elim (g.manager.regions id) [
  | none ↦ none
  | some r ↦ elim (visit mark r g) [
    | none ↦ none
    | some g' ↦ elim (next_in id (g'.manager.lists young)) [
      | none ↦ none
      | some next ↦ young_walk fuel mark next g'
    ]
  ]
]

unfoldable pub first_in : List ℕ → Option ℕ
first_in [] = none
first_in (x ∷ xs) = some x

unfoldable pub age_young : Bool → Gc → Option Gc
age_young mark g =
    young_walk (length (g.manager.lists young)) mark (first_in (g.manager.lists young)) g

unfoldable pub gc_collect_young : Clock → Gc → Option (GcResult × Gc)
gc_collect_young t g =
    let g1 = record g {
      state = young_gc;
      current_epoch = u64 (g.current_epoch + 1);
      stats = young_stats g.stats;
    } in
    if not g.initialized || not g.active then some (failure, g) else elim (age_young true g1) [
      | none ↦ none
      | some g2 ↦ elim (gc_reclaim_regions t g2) [
        | none ↦ none
        | some (freed, pause) ↦
            some
              (success, record g2 { stats = freed_stats freed pause g2.stats; state = state_idle })
      ]
    ]

unfoldable pub gc_collect_mixed : Clock → Gc → Option (GcResult × Gc)
gc_collect_mixed t g =
    let g1 = record g {
      state = mixed_gc;
      phase = mixed_reclaim_start;
      current_epoch = u64 (g.current_epoch + 1);
      stats = record (g.stats) {
        gc_count = u64 (g.stats.gc_count + 1);
        mixed_gc_count = u64 (g.stats.mixed_gc_count + 1);
      };
    } in
    if not g.initialized || not g.active
    then some (failure, g)
    else if not g.config.mixed_gc_enabled
    then gc_collect_young t g
    else elim (age_young true g1) [
      | none ↦ none
      | some g2 ↦ elim (gc_reclaim_regions t (record g2 { phase = mixed_reclaim })) [
        | none ↦ none
        | some (freed, pause) ↦ some (
          success,
          record g2 {
            stats = freed_stats freed pause g2.stats;
            state = state_idle;
            phase = phase_idle;
          },
        )
      ]
    ]

unfoldable pub gc_collect_full : Clock → Gc → Option (GcResult × Gc)
gc_collect_full t g =
    let g1 = record g {
      state = full_gc;
      current_epoch = u64 (g.current_epoch + 1);
      stats = record (g.stats) {
        gc_count = u64 (g.stats.gc_count + 1);
        full_gc_count = u64 (g.stats.full_gc_count + 1);
      };
    } in
    if not g.initialized || not g.active then some (failure, g) else elim (gc_mark_all_regions g1) [
      | none ↦ none
      | some g2 ↦ elim (age_young false g2) [
        | none ↦ none
        | some g3 ↦ elim (gc_reclaim_regions t g3) [
          | none ↦ none
          | some (freed, pause) ↦
              some (
                success,
                record g3 { stats = freed_stats freed pause g3.stats; state = state_idle },
              )
        ]
      ]
    ]
