-- ===== src/Collector/Marked.antt =====
-- The marking of src/gc/gc.c.
use mathlib.Core.Path.{fun_ext}
use native.Mathlib.Decide.{ℕ_discrete}
use nomalloc.Prelude.{
  ℕ, ◌+◌, ◌^◌, ◌<◌, ◌≡◌, ◌≢◌, inl, inr, refl, ap, ap₂, subst, ◌∙◌, true, false, List, [], ◌∷◌,
  Option, none, some, ◌==◌, if◌then◌else◌, u64, arith, Bool-cases, Option-cases,
}
use nomalloc.GcRegion.Types.{code, Region, put, linked}
use nomalloc.Collector.State.{Gc}
use nomalloc.Collector.Collect.{marked, gc_mark_region, mark_list}

-- The regions with those of a list marked.
unfoldable pub mark_listed : List ℕ → (ℕ → Option Region) → ℕ → Option Region
mark_listed ids regions i =
    if linked i ids
    then (elim (regions i) [ none ↦ none | some r ↦ some (marked r) ])
    else regions i

unfoldable pub allocated_at : Option Region → ℕ
allocated_at none = 0
allocated_at (some r) = r.allocated_bytes

unfoldable pub allocated_in : List ℕ → (ℕ → Option Region) → ℕ
allocated_in [] regions = 0
allocated_in (id ∷ ids) regions = allocated_at (regions id) + allocated_in ids regions

-- Every member of the list is a region in use, under its own identity.
pub record IsListed (regions : ℕ → Option Region) (i : ℕ) : Type 0 where
  pub region : Region
  pub here : regions i ≡ some region
  pub named : region.id ≡ i
  pub used : code region.kind ≢ 0

abbrev pub AllListed : List ℕ → (ℕ → Option Region) → Type 0
AllListed ids regions = (i : ℕ) → linked i ids ≡ true → IsListed regions i

-- The collector after the regions of a list are marked.
abbrev pub with_marks : Gc → (ℕ → Option Region) → ℕ → Gc
with_marks g regions bytes = record g {
  manager = record (g.manager) { regions = regions };
  marked_bytes = bytes;
}

abbrev pub after_marking : List ℕ → Gc → Gc
after_marking ids g =
    with_marks g (mark_listed ids g.manager.regions)
      (u64 (g.marked_bytes + allocated_in ids g.manager.regions))

pub mark_listed-AllListed :
    (ids js : List ℕ) (regions : ℕ → Option Region)
    → AllListed js regions
    → AllListed js (mark_listed ids regions)
unfolding mark_listed
mark_listed-AllListed ids js regions all i l =
    let it = all i l in
    elim (Bool-cases (linked i ids)) [
      | inl e ↦ record {
        region = marked it.region;
        here = rw (e, it.here) refl;
        named = it.named;
        used = it.used;
      }
      | inr e ↦ record {
        region = it.region;
        here = rw (e, it.here) refl;
        named = it.named;
        used = it.used;
      }
    ]

allocated_at-mark_listed :
    (js : List ℕ) (regions : ℕ → Option Region) (i : ℕ)
    → allocated_at (mark_listed js regions i) ≡ allocated_at (regions i)
unfolding mark_listed allocated_at
allocated_at-mark_listed js regions i = elim (Bool-cases (linked i js)) [
  | inr e ↦ rw e refl
  | inl e ↦ elim (Option-cases (regions i)) [
    | inl none_here ↦ rw (e, none_here) refl
    | inr (r, here) ↦ rw (e, here) refl
  ]
]

allocated_in-mark_listed :
    (ids js : List ℕ) (regions : ℕ → Option Region)
    → allocated_in ids (mark_listed js regions) ≡ allocated_in ids regions
unfolding allocated_in
allocated_in-mark_listed [] js regions = refl
allocated_in-mark_listed (id ∷ ids) js regions =
    rw (allocated_at-mark_listed js regions id, allocated_in-mark_listed ids js regions) refl

twice_at :
    (id : ℕ) (ids : List ℕ) (regions : ℕ → Option Region) (i : ℕ)
    → mark_listed ids (mark_listed (id ∷ []) regions) i ≡ mark_listed (id ∷ ids) regions i
unfolding mark_listed linked
twice_at id ids regions i = elim (Bool-cases (id == i)) [
  | inl e ↦ elim (Option-cases (regions i)) [
    | inl n ↦ elim (Bool-cases (linked i ids)) [
      | inl l ↦ rw (e, l, n) refl
      | inr l ↦ rw (e, l, n) refl
    ]
    | inr (r, here) ↦ elim (Bool-cases (linked i ids)) [
      | inl l ↦ rw (e, l, here) refl
      | inr l ↦ rw (e, l, here) refl
    ]
  ]
  | inr e ↦ rw e refl
]

one_at :
    (id : ℕ) (r : Region) (regions : ℕ → Option Region)
    → regions id ≡ some r
    → (i : ℕ) → put id (marked r) regions i ≡ mark_listed (id ∷ []) regions i
unfolding mark_listed linked put
one_at id r regions here i = elim (ℕ_discrete id i) [
  | yes e ↦
      subst (λ k. put id (marked r) regions k ≡ mark_listed (id ∷ []) regions k) e
        (rw here (ground arith))
  | no n ↦ ground (arith, n)
]

mark_listed_twice :
    (id : ℕ) (ids : List ℕ) (regions : ℕ → Option Region)
    → mark_listed ids (mark_listed (id ∷ []) regions) ≡ mark_listed (id ∷ ids) regions
mark_listed_twice id ids regions = fun_ext (twice_at id ids regions)

mark_self :
    (r : Region) (g : Gc)
    → g.manager.regions r.id ≡ some r
    → code r.kind ≢ 0
    → gc_mark_region r g ≡ after_marking (r.id ∷ []) g
unfolding gc_mark_region allocated_in allocated_at
mark_self r g here used =
    let test : (code r.kind == 0) ≡ false = ground arith in
    rw test
      (ap₂ (with_marks g) (fun_ext (one_at r.id r g.manager.regions here)) (rw here (omega arith)))

mark_step :
    (id : ℕ) (r : Region) (g : Gc)
    → g.manager.regions id ≡ some r
    → r.id ≡ id
    → code r.kind ≢ 0
    → gc_mark_region r g ≡ after_marking (id ∷ []) g
mark_step id r g here named used =
    subst (λ k. gc_mark_region r g ≡ after_marking (k ∷ []) g) named
      (mark_self r g (ap g.manager.regions named ∙ here) used)

after_marking_twice :
    (id : ℕ) (ids : List ℕ) (g : Gc)
    → after_marking ids (after_marking (id ∷ []) g) ≡ after_marking (id ∷ ids) g
unfolding allocated_in
after_marking_twice id ids g =
    ap₂ (with_marks g) (mark_listed_twice id ids g.manager.regions)
      (rw (allocated_in-mark_listed ids (id ∷ []) g.manager.regions) (omega arith))

mark_list_cons :
    (id : ℕ) (ids : List ℕ) (r : Region) (g : Gc)
    → g.manager.regions id ≡ some r
    → mark_list (id ∷ ids) g ≡ mark_list ids (gc_mark_region r g)
unfolding mark_list
mark_list_cons id ids r g here = rw (mark_list, here) refl

linked_first : (id : ℕ) (ids : List ℕ) → linked id (id ∷ ids) ≡ true
unfolding linked
linked_first id ids = ground arith

linked_later : (i id : ℕ) (ids : List ℕ) → linked i ids ≡ true → linked i (id ∷ ids) ≡ true
unfolding linked
linked_later i id ids l = ground arith

pub mark_list_lem :
    (ids : List ℕ) (g : Gc)
    → g.marked_bytes < 2 ^ 64
    → AllListed ids g.manager.regions
    → mark_list ids g ≡ some (after_marking ids g)
unfolding mark_list mark_listed allocated_in linked
mark_list_lem [] g small all =
    ap some (ap₂ (with_marks g) {x = g.manager.regions} refl (omega arith))
mark_list_lem (id ∷ ids) g small all =
    let it = all id (linked_first id ids) in
    mark_list_cons id ids it.region g it.here
    ∙ ap (mark_list ids) (mark_step id it.region g it.here it.named it.used)
    ∙ mark_list_lem ids (after_marking (id ∷ []) g) (omega arith) (
        mark_listed-AllListed (id ∷ []) ids g.manager.regions
          (λ i l. all i (linked_later i id ids l)))
    ∙ ap some (after_marking_twice id ids g)
