-- ===== src/Collector/Cycles.antt =====
-- Whole collections of src/gc/gc.c.
use mathlib.Core.Path.{fun_ext}
use nomalloc.Prelude.{
  ℕ, ◌+◌, ◌*◌, ◌^◌, ◌<◌, ◌≡◌, inl, inr, refl, ap, ◌∙◌, true, false, not, ◌||◌, List, [], ◌∷◌,
  Option, none, some, ◌==◌, u64, sub64, arith, Bool-cases, Option-cases, ==_iff,
}
use nomalloc.GcRegion.Types.{old, code, Region, linked}
use nomalloc.Collector.State.{Gc, success, state_idle, young_gc, phase_idle, mark_start, cleanup}
use nomalloc.Collector.Collect.{
  Clock, gc_mark_all_regions, taken_up, reclaim_walk, gc_reclaim_regions, young_stats, freed_stats,
  gc_collect,
}
use nomalloc.Collector.Sweep.{
  IsHeap, mark_kind, mark_in_use, linked_kind, marked_three, marked_old, mark_all,
}

abbrev begun : Gc → Gc
begun g = record g {
  current_epoch = u64 (g.current_epoch + 1);
  state = young_gc;
  phase = mark_start;
  concurrent_active = true;
  stats = young_stats g.stats;
}

abbrev ended : Clock → ℕ → ℕ → Gc → Gc
ended t freed pause g =
    let s = freed_stats freed pause g.stats in
    record g {
      stats = record s { gc_time_ns = u64 (s.gc_time_ns + sub64 t.stop t.start) };
      state = state_idle;
      phase = phase_idle;
      concurrent_active = false;
    }

collect_done :
    (t : Clock) (g g2 : Gc) (freed pause : ℕ)
    → g.initialized ≡ true
    → g.active ≡ true
    → gc_mark_all_regions (begun g) ≡ some g2
    → gc_reclaim_regions t (record g2 { phase = cleanup }) ≡ some (freed, pause)
    → gc_collect t g ≡ some (success, ended t freed pause g2)
unfolding gc_collect
collect_done t g g2 freed pause init act e n =
    let test : (not g.initialized || not g.active) ≡ false = ground arith in
    rw (gc_collect, test, e, n) refl

collect_fault :
    (t : Clock) (g g2 : Gc)
    → g.initialized ≡ true
    → g.active ≡ true
    → gc_mark_all_regions (begun g) ≡ some g2
    → gc_reclaim_regions t (record g2 { phase = cleanup }) ≡ none
    → gc_collect t g ≡ none
unfolding gc_collect
collect_fault t g g2 init act e n =
    let test : (not g.initialized || not g.active) ≡ false = ground arith in
    rw (gc_collect, test, e, n) refl

-- A walk that meets a region that is taken up.
walk_fault :
    (ids : List ℕ) (regions : ℕ → Option Region) (i : ℕ) (r : Region)
    → linked i ids ≡ true
    → regions i ≡ some r
    → taken_up r ≡ true
    → reclaim_walk ids regions ≡ false
unfolding reclaim_walk linked
walk_fault [] regions i r l here up = absurd (ground arith)
walk_fault (x ∷ xs) regions i r l here up = elim (Bool-cases (x == i)) [
  | inl e ↦ rw (reclaim_walk, ap regions ((==_iff x i).0 e) ∙ here, up) refl
  | inr e ↦ elim (Option-cases (regions x)) [
    | inl n ↦ rw (reclaim_walk, n) refl
    | inr (r', n) ↦ elim (Bool-cases (taken_up r')) [
      | inl u ↦ rw (reclaim_walk, n, u) refl
      | inr u ↦ rw (reclaim_walk, n, u) (walk_fault xs regions i r (ground arith) here up)
    ]
  ]
]

taken_up-mark_kind : (r : Region) → taken_up (mark_kind r) ≡ taken_up r
unfolding taken_up mark_kind
taken_up-mark_kind r = ground arith

module _ (t : Clock) (g : Gc) (heap : IsHeap g.manager) (small : g.marked_bytes < 2 ^ 64)
    (init : g.initialized ≡ true) (act : g.active ≡ true) where
  -- The state after marking.
  abbrev swept : Gc
  swept = marked_old (begun g) heap small

  begun_marks : gc_mark_all_regions (begun g) ≡ some swept
  begun_marks = mark_all (begun g) heap small

  swept_regions : swept.manager.regions ≡ mark_in_use g.manager.regions
  swept_regions = fun_ext (λ i. marked_three g.manager i heap)

  reclaim_none :
      g.manager.lists old ≡ []
      → gc_reclaim_regions t (record swept { phase = cleanup })
        ≡ some (0, sub64 t.reclaim_end t.reclaim_start)
  unfolding gc_reclaim_regions reclaim_walk
  reclaim_none e = rw e refl

  reclaim_fault :
      (r : Region)
      → g.manager.regions r.id ≡ some r
      → code r.kind ≡ 3
      → taken_up r ≡ true
      → gc_reclaim_regions t (record swept { phase = cleanup }) ≡ none
  unfolding gc_reclaim_regions mark_in_use
  reclaim_fault r here kind up =
      let linked_old = linked_kind old g.manager r.id r heap here in
      let at : swept.manager.regions r.id ≡ some (mark_kind r) =
        marked_three g.manager r.id heap ∙ rw (mark_in_use, here) refl in
      rw
        (walk_fault (g.manager.lists old) swept.manager.regions r.id (mark_kind r)
          (ground (arith, linked_old)) at (taken_up-mark_kind r ∙ up))
        refl

-- A collection of an initialized and active collector without old regions comes to its end: it
-- succeeds, leaves the lists of regions and all they count alone, takes every byte allocated in a
-- young or survivor region for live, with clear bitmaps, frees nothing, counts as one young
-- collection, and leaves the collector idle in the next epoch.
pub gc_collect_marks :
    (t : Clock) (g : Gc)
    → IsHeap g.manager
    → g.marked_bytes < 2 ^ 64
    → g.initialized ≡ true
    → g.active ≡ true
    → g.manager.lists old ≡ []
    → (g' : Gc) × (gc_collect t g ≡ some (success, g'))
      × (g'.manager ≡ record (g.manager) { regions = mark_in_use g.manager.regions })
      × (g'.stats.young_gc_count ≡ u64 (g.stats.young_gc_count + 1))
      × (g'.stats.bytes_freed ≡ u64 g.stats.bytes_freed)
      × (g'.current_epoch ≡ u64 (g.current_epoch + 1))
      × (g'.state ≡ state_idle)
      × (g'.phase ≡ phase_idle)
      × (g'.concurrent_active ≡ false)
gc_collect_marks t g heap small init act none_old =
    let after = swept t g heap small init act in
    let pause = sub64 t.reclaim_end t.reclaim_start in
    (
      ended t 0 pause after,
      collect_done t g after 0 pause init act (begun_marks t g heap small init act)
          (reclaim_none t g heap small init act none_old),
      ap (λ f. record (g.manager) { regions = f }) (swept_regions t g heap small init act),
      refl,
      omega arith,
      refl,
      refl,
      refl,
      refl,
    )

-- A collection faults when there is an old region of 2^18 bits, the bits of a region of the
-- default size, whose base address lies above twice its size.
pub gc_collect_fault :
    (t : Clock) (g : Gc) (r : Region)
    → IsHeap g.manager
    → g.marked_bytes < 2 ^ 64
    → g.initialized ≡ true
    → g.active ≡ true
    → g.manager.regions r.id ≡ some r
    → code r.kind ≡ 3
    → r.bitmap_size ≡ 2 ^ 18
    → 2 * r.size < r.base_addr
    → gc_collect t g ≡ none
unfolding taken_up
gc_collect_fault t g r heap small init act here kind bits far =
    collect_fault t g (swept t g heap small init act) init act (begun_marks t g heap small init act)
      (reclaim_fault t g heap small init act r here kind (ground (arith, bits)))
