-- ===== src/Collector/Sweep.antt =====
-- The marking of all regions of src/gc/gc.c.
use nomalloc.Prelude.{
  ℕ, ◌^◌, ◌<◌, ◌≡◌, ◌≢◌, inl, inr, refl, ap, ◌∙◌, true, ◌||◌, List, [], ◌∷◌, Option, none, some,
  ◌==◌, if◌then◌else◌, arith, Bool-cases, Option-cases,
}
use nomalloc.GcRegion.Types.{RegionType, young, survivor, old, code, Region, RegionManager, linked}
use nomalloc.GcRegion.Ledger.{IsLedger, occ, member, linked-occ}
use nomalloc.Collector.State.{Gc}
use nomalloc.Collector.Collect.{marked, gc_mark_all_regions}
use nomalloc.Collector.Marked.{
  mark_listed, AllListed, after_marking, mark_listed-AllListed, mark_list_lem,
}

-- The regions are in order, and stand under their identities.
pub record IsHeap (m : RegionManager) : Type 0 where
  pub ledger : IsLedger m
  pub named : (i : ℕ) (r : Region) → m.regions i ≡ some r → r.id ≡ i

linked-occ_pos : (i : ℕ) (xs : List ℕ) → linked i xs ≡ true → 0 < occ i xs
unfolding linked occ
linked-occ_pos i [] e = absurd (ground arith)
linked-occ_pos i (x ∷ xs) e = ground (arith, linked-occ_pos i xs)

-- The members of the list of a type in use are regions of that type.
heap-AllListed :
    (t : RegionType) (m : RegionManager) → IsHeap m → code t ≢ 0 → AllListed (m.lists t) m.regions
unfolding member
heap-AllListed t m heap used i l = elim (Option-cases (m.regions i)) [
  | inl nothing ↦ absurd (
      omega
        (arith, linked-occ_pos i (m.lists t) l, heap.ledger.members i t ∙ ap (member t) nothing))
  | inr (r, here) ↦ record {
    region = r;
    here = here;
    named = heap.named i r here;
    used =
        ground
          (arith, linked-occ_pos i (m.lists t) l, heap.ledger.members i t ∙ ap (member t) here);
  }
]

-- Every young, survivor or old region is marked: the bytes allocated in it count as live, and its
-- bitmaps are clear.
unfoldable pub mark_kind : Region → Region
mark_kind r = if code r.kind == 1 || code r.kind == 2 || code r.kind == 3 then marked r else r

unfoldable pub mark_in_use : (ℕ → Option Region) → ℕ → Option Region
mark_in_use regions i = elim (regions i) [ none ↦ none | some r ↦ some (mark_kind r) ]

pub linked_kind :
    (t : RegionType) (m : RegionManager) (i : ℕ) (r : Region)
    → IsHeap m
    → m.regions i ≡ some r
    → linked i (m.lists t) ≡ (code t == code r.kind)
unfolding member
linked_kind t m i r heap here =
    let e = heap.ledger.members i t ∙ ap (member t) here in
    elim (Bool-cases (linked i (m.lists t))) [
      | inl l ↦ l ∙ ground (arith, linked-occ_pos i (m.lists t) l, e)
      | inr l ↦ l ∙ ground (arith, linked-occ i (m.lists t), e, l)
    ]

mark_listed_absent :
    (ids : List ℕ) (regions : ℕ → Option Region) (i : ℕ)
    → regions i ≡ none
    → mark_listed ids regions i ≡ none
unfolding mark_listed
mark_listed_absent ids regions i e = elim (Bool-cases (linked i ids)) [
  | inl l ↦ rw (l, e) refl
  | inr l ↦ rw (l, e) refl
]

mark_listed_present :
    (ids : List ℕ) (regions : ℕ → Option Region) (i : ℕ) (r : Region)
    → regions i ≡ some r
    → mark_listed ids regions i ≡ some (if linked i ids then marked r else r)
unfolding mark_listed
mark_listed_present ids regions i r e = elim (Bool-cases (linked i ids)) [
  | inl l ↦ rw (l, e) refl
  | inr l ↦ rw (l, e) refl
]

three_tests :
    (r : Region)
    → (if 3 == code r.kind
        then marked (
            if 2 == code r.kind
            then marked (if 1 == code r.kind then marked r else r)
            else (if 1 == code r.kind then marked r else r))
        else (if 2 == code r.kind
            then marked (if 1 == code r.kind then marked r else r)
            else (if 1 == code r.kind then marked r else r)))
      ≡ mark_kind r
unfolding mark_kind
three_tests r = ground arith

pub marked_three :
    (m : RegionManager) (i : ℕ)
    → IsHeap m
    → mark_listed
        (m.lists old)
        (mark_listed (m.lists survivor) (mark_listed (m.lists young) m.regions))
        i
      ≡ mark_in_use m.regions i
unfolding mark_in_use
marked_three m i heap =
    let once = mark_listed (m.lists young) m.regions in
    let twice = mark_listed (m.lists survivor) once in
    elim (Option-cases (m.regions i)) [
      | inl e ↦
          mark_listed_absent (m.lists old) twice i (
            mark_listed_absent (m.lists survivor) once i
              (mark_listed_absent (m.lists young) m.regions i e))
          ∙ rw (mark_in_use, e) refl
      | inr (r, e) ↦
          mark_listed_present (m.lists old) twice i _ (
            mark_listed_present (m.lists survivor) once i _
              (mark_listed_present (m.lists young) m.regions i r e))
          ∙ rw
              (
                mark_in_use,
                e,
                linked_kind young m i r heap e,
                linked_kind survivor m i r heap e,
                linked_kind old m i r heap e,
              )
              (ap some (three_tests r))
    ]

module _ (g : Gc) (heap : IsHeap g.manager) (small : g.marked_bytes < 2 ^ 64) where
  abbrev marked_young : Gc
  marked_young = after_marking (g.manager.lists young) g

  abbrev marked_survivors : Gc
  marked_survivors = after_marking (g.manager.lists survivor) marked_young

  abbrev pub marked_old : Gc
  marked_old = after_marking (g.manager.lists old) marked_survivors

  pub mark_all : gc_mark_all_regions g ≡ some marked_old
  unfolding gc_mark_all_regions
  mark_all =
      let all_young = heap-AllListed young g.manager heap (omega arith) in
      let all_survivors =
        mark_listed-AllListed (g.manager.lists young) _ g.manager.regions
          (heap-AllListed survivor g.manager heap (omega arith)) in
      let all_old =
        mark_listed-AllListed (g.manager.lists young) _ g.manager.regions
          (heap-AllListed old g.manager heap (omega arith)) in
      rw
        (
          gc_mark_all_regions,
          mark_list_lem (g.manager.lists young) g small all_young,
          mark_list_lem (g.manager.lists survivor) marked_young (omega arith) all_survivors,
        )
        (mark_list_lem (g.manager.lists old) marked_survivors (omega arith)
          (mark_listed-AllListed (g.manager.lists survivor) _ _ all_old))

-- The state in which a collection starts to mark.
