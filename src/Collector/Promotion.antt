-- ===== src/Collector/Promotion.antt =====
-- The walk of the young collection of src/gc/gc.c over a region that is promoted.
use nomalloc.Prelude.{
  ℕ, suc, ◌+◌, ◌^◌, ◌≤◌, ◌<◌, ◌≡◌, refl, ap, ◌∙◌, true, false, not, ◌||◌, ◌&&◌, List, [], ◌∷◌,
  Option, none, some, ltb, ◌==◌, u64, u32, arith, length,
}
use nomalloc.GcRegion.Types.{
  RegionType, young, survivor, code, Region, RegionManager, link, remove, put,
}
use nomalloc.GcRegion.Manager.{move, gc_region_promote, gc_region_age}
use nomalloc.GcRegion.Ledger.{IsLedger, occ, occ_here, occ-remove, del_here}
use nomalloc.Collector.State.{Gc, young_gc}
use nomalloc.Collector.Collect.{
  Clock, marked, gc_mark_region, next_in, age_in, visit, young_walk, first_in, age_young,
  young_stats, gc_collect_young,
}
use nomalloc.Collector.Sweep.{IsHeap}

next_in_absent : (id : ℕ) (xs : List ℕ) → occ id xs ≡ 0 → next_in id xs ≡ none
unfolding next_in occ
next_in_absent id [] e = refl
next_in_absent id (x ∷ []) e = ground arith
next_in_absent id (x ∷ y ∷ ys) e = ground (arith, next_in_absent id (y ∷ ys))

put_self : (id : ℕ) (r : Region) (regions : ℕ → Option Region) → put id r regions id ≡ some r
unfolding put
put_self id r regions = ground arith

visit_lem :
    (r r1 : Region) (g g1 : Gc) (m : RegionManager)
    → gc_mark_region r g ≡ g1
    → g1.manager.regions r.id ≡ some r1
    → gc_region_age r1 g1.manager ≡ some m
    → visit true r g ≡ some (record g1 { manager = m })
unfolding visit age_in
visit_lem r r1 g g1 m e at grows = ap (age_in r.id) e ∙ rw (age_in, at, grows) refl

move_young :
    (r : Region) (lists : RegionType → List ℕ) (m : RegionManager)
    → (move survivor r lists m).lists young ≡ lists young
unfolding move link
move_young r lists m = refl

module _ (r : Region) (g : Gc) (ok : IsLedger g.manager) (here : g.manager.regions r.id ≡ some r)
    (kind : code r.kind ≡ 1) (grown : 1 ≤ r.age) (bounded : r.age + 1 < 2 ^ 32) where
  -- The region after it is marked and has aged, and the manager before it moves.
  abbrev aged : Region
  aged = record (marked r) { age = u32 (r.age + 1) }

  abbrev before_move : RegionManager
  before_move = record (g.manager) {
    regions = put r.id aged (put r.id (marked r) g.manager.regions);
  }

  abbrev moved : RegionManager
  moved = move survivor aged (λ u. remove r.id (g.manager.lists u)) before_move

  promoted : gc_region_promote aged before_move ≡ some moved
  unfolding gc_region_promote
  promoted =
      let first : (code r.kind == 1) ≡ true = ground arith in
      rw (gc_region_promote, del_here r g.manager ok here, first) refl

  aging :
      gc_region_age
        (marked r)
        (record (g.manager) { regions = put r.id (marked r) g.manager.regions })
      ≡ some moved
  unfolding gc_region_age
  aging =
      let due : (code r.kind == 1 && ltb 1 (u32 (r.age + 1))
            || code r.kind == 2 && ltb 15 (u32 (r.age + 1)))
          ≡ true =
        ground arith in
      rw (gc_region_age, due) promoted

  -- The collector after the region is marked.
  abbrev after_mark : Gc
  after_mark = record g {
    manager = record (g.manager) { regions = put r.id (marked r) g.manager.regions };
    marked_bytes = u64 (g.marked_bytes + r.allocated_bytes);
  }

  marks : gc_mark_region r g ≡ after_mark
  unfolding gc_mark_region
  marks = let used : (code r.kind == 0) ≡ false = ground arith in rw used refl

  visited : visit true r g ≡ some (record after_mark { manager = moved })
  visited =
      visit_lem r (marked r) g after_mark moved marks (put_self r.id (marked r) g.manager.regions)
        aging

  none_left : occ r.id (remove r.id (g.manager.lists young)) ≡ 0
  none_left =
      ground
        (arith, occ-remove r.id r.id (g.manager.lists young), occ_here r g.manager ok here young)

  pub walk_leaves : (n : ℕ) → young_walk (suc n) true (some r.id) g ≡ none
  unfolding young_walk
  walk_leaves n =
      let gone = next_in_absent r.id (moved.lists young) (
        ap (occ r.id) (move_young aged (λ u. remove r.id (g.manager.lists u)) before_move)
        ∙ none_left) in
      rw (young_walk, here, visited, gone) refl

occ_first : (x : ℕ) (xs : List ℕ) → 0 < occ x (x ∷ xs)
unfolding occ
occ_first x xs = ground arith

age_start :
    (g : Gc) (xs : List ℕ)
    → g.manager.lists young ≡ xs
    → age_young true g ≡ young_walk (length xs) true (first_in xs) g
unfolding age_young
age_start g xs e = ap (λ ys. young_walk (length ys) true (first_in ys) g) e

-- A young collection whose first young region has lived through a collection does not come to an
-- end: the region is promoted in the middle of the walk over the young regions, and the walk goes
-- on from its place in the list of survivors.
pub gc_collect_young_fault :
    (t : Clock) (g : Gc) (r : Region) (rest : List ℕ)
    → IsHeap g.manager
    → g.initialized ≡ true
    → g.active ≡ true
    → g.manager.lists young ≡ (r.id ∷ rest)
    → g.manager.regions r.id ≡ some r
    → 1 ≤ r.age
    → r.age + 1 < 2 ^ 32
    → gc_collect_young t g ≡ none
unfolding gc_collect_young first_in
gc_collect_young_fault t g r rest heap init act first here grown bounded =
    let g1 = record g {
      state = young_gc;
      current_epoch = u64 (g.current_epoch + 1);
      stats = young_stats g.stats;
    } in
    let test : (not g.initialized || not g.active) ≡ false = ground arith in
    let kind : code r.kind ≡ 1 = ground (
      arith,
      occ_here r g.manager heap.ledger here young,
      occ_first r.id rest,
      ap (occ r.id) first,
    ) in
    let leaves : age_young true g1 ≡ none =
      age_start g1 (r.id ∷ rest) first
      ∙ walk_leaves r g1 heap.ledger here kind grown bounded (length rest) in
    rw (gc_collect_young, test, leaves) refl
