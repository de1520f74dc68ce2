-- ===== src/GcRegion/Ledger.antt =====
-- The lists and counters of the region manager of src/gc/gc_region.c against the types of the
-- regions, for `gc_region_promote` and `gc_region_age`.
use nomalloc.Prelude.{
  ℕ, ◌+◌, ◌-◌, ◌^◌, ◌<◌, ◌≡◌, ◌≢◌, ◌⊎◌, inl, inr, refl, ap, ◌∙◌, true, false, ◌&&◌, ◌||◌, List, [],
  ◌∷◌, ◌++◌, Option, none, some, ltb, ◌==◌, if◌then◌else◌, u64, u32, arith, length, Bool-cases,
  length-append,
}
use nomalloc.GcRegion.Types.{
  RegionType, empty, young, survivor, old, humongous, pinned, code, Region, RegionManager, link,
  remove, linked, list_del, count_up, count_down, put,
}
use nomalloc.GcRegion.Manager.{move, gc_region_promote, gc_region_age}

-- How often a region is linked in a list.
unfoldable pub occ : ℕ → List ℕ → ℕ
occ id [] = 0
occ id (x ∷ xs) = (if x == id then 1 else 0) + occ id xs

pub occ-append : (i : ℕ) (xs ys : List ℕ) → occ i (xs ++ ys) ≡ occ i xs + occ i ys
unfolding occ
occ-append i [] ys = omega arith
occ-append i (x ∷ xs) ys = ground (arith, occ-append i xs ys)

pub occ-remove :
    (i id : ℕ) (xs : List ℕ) → occ i (remove id xs) ≡ (if i == id then occ i xs - 1 else occ i xs)
unfolding occ remove
occ-remove i id [] = ground arith
occ-remove i id (x ∷ xs) = ground (arith, occ-remove i id xs)

pub remove_absent : (id : ℕ) (xs : List ℕ) → occ id xs ≡ 0 → remove id xs ≡ xs
unfolding occ remove
remove_absent id [] h = refl
remove_absent id (x ∷ xs) h = ground (arith, remove_absent id xs)

pub length-remove : (id : ℕ) (xs : List ℕ) → 0 < occ id xs → length (remove id xs) + 1 ≡ length xs
unfolding occ remove
length-remove id [] h = absurd (omega arith)
length-remove id (x ∷ xs) h = ground (arith, length-remove id xs)

pub linked-occ : (id : ℕ) (xs : List ℕ) → 0 < occ id xs → linked id xs ≡ true
unfolding occ linked
linked-occ id [] h = absurd (omega arith)
linked-occ id (x ∷ xs) h = ground (arith, linked-occ id xs)

list_del_linked :
    (id : ℕ) (lists : RegionType → List ℕ) (t : RegionType)
    → 0 < occ id (lists t)
    → list_del id lists ≡ some (λ u. remove id (lists u))
unfolding list_del
list_del_linked id lists empty h = ground (arith, linked-occ id (lists empty) h)
list_del_linked id lists young h = ground (arith, linked-occ id (lists young) h)
list_del_linked id lists survivor h = ground (arith, linked-occ id (lists survivor) h)
list_del_linked id lists old h = ground (arith, linked-occ id (lists old) h)
list_del_linked id lists humongous h = ground (arith, linked-occ id (lists humongous) h)
list_del_linked id lists pinned h = ground (arith, linked-occ id (lists pinned) h)

-- How often a region belongs in the list of `t`.
unfoldable pub member : RegionType → Option Region → ℕ
member t none = 0
member t (some r) = if code t == code r.kind then 1 else 0

-- Each region is linked once in the list of its type and in no other list, and each counter is
-- the length of its list, as a word.
pub record IsLedger (g : RegionManager) : Type 0 where
  pub members : (i : ℕ) (t : RegionType) → occ i (g.lists t) ≡ member t (g.regions i)
  pub tallies : (t : RegionType) → g.counts t ≡ u64 (length (g.lists t))

-- The region is the one that the manager has under its identity.
abbrev pub Registered : Region → RegionManager → Type 0
Registered r g = g.regions r.id ≡ some r

same_member : (t : RegionType) (x y : Option Region) → x ≡ y → member t x ≡ member t y
same_member t x y e = ap (member t) e

module _ (r : Region) (g : RegionManager) (ok : IsLedger g) (here : Registered r g) where
  pub occ_here : (t : RegionType) → occ r.id (g.lists t) ≡ (if code t == code r.kind then 1 else 0)
  unfolding member
  occ_here t = ok.members r.id t ∙ ap (member t) here

  pub del_here : list_del r.id g.lists ≡ some (λ u. remove r.id (g.lists u))
  del_here = list_del_linked r.id g.lists r.kind (ground (arith, occ_here r.kind))

  move-IsLedger :
      (t : RegionType) → code t ≢ code r.kind → IsLedger (move t r (λ u. remove r.id (g.lists u)) g)
  unfolding move link put member count_up count_down occ
  move-IsLedger t other = record {
    members = λ i u. ground (
      arith,
      occ-remove i r.id (g.lists u),
      occ-append i (remove r.id (g.lists u)) (r.id ∷ []),
      ok.members i u,
      occ_here u,
    );
    tallies = λ u. ground (
      arith,
      ok.tallies u,
      occ_here u,
      length-append (remove r.id (g.lists u)) (r.id ∷ []),
      length-remove r.id (g.lists u),
      remove_absent r.id (g.lists u),
    );
  }

  moved :
      (t : RegionType)
      → (move t r (λ u. remove r.id (g.lists u)) g).regions r.id ≡ some (record r { kind = t })
  unfolding move put
  moved t = ground arith

  put-IsLedger :
      (r' : Region)
      → r'.id ≡ r.id
      → r'.kind ≡ r.kind
      → IsLedger (record g { regions = put r.id r' g.regions })
  unfolding put member
  put-IsLedger r' same kinds = record {
    members = λ i u. ground (arith, ok.members i u, occ_here u);
    tallies = ok.tallies;
  }

  -- Promoting a region that the manager has keeps its lists and counters in order, if the region
  -- is young or a survivor, and makes it a survivor or an old region.
  promote-IsLedger :
      (code r.kind ≡ 1) ⊎ (code r.kind ≡ 2)
      → (g' : RegionManager) × (gc_region_promote r g ≡ some g')
        × IsLedger g'
        × (g'.regions r.id ≡ some (record r { kind = if code r.kind == 1 then survivor else old }))
  unfolding gc_region_promote
  promote-IsLedger (inl y) = (
    move survivor r (λ u. remove r.id (g.lists u)) g,
    ground (arith, del_here),
    move-IsLedger survivor (omega (arith, y)),
    ground (arith, y, moved survivor),
  )
  promote-IsLedger (inr y) = (
    move old r (λ u. remove r.id (g.lists u)) g,
    ground (arith, del_here),
    move-IsLedger old (omega (arith, y)),
    ground (arith, moved old),
  )

put_here : (id : ℕ) (r : Region) (regions : ℕ → Option Region) → put id r regions id ≡ some r
unfolding put
put_here id r regions = ground arith

due :
    (t : RegionType) (a : ℕ)
    → (((code t == 1 && ltb 1 a) || (code t == 2 && ltb 15 a)) ≡ false)
      ⊎ (((code t ≡ 1) ⊎ (code t ≡ 2))
          × (((code t == 1 && ltb 1 a) || (code t == 2 && ltb 15 a)) ≡ true))
due empty a = inl refl
due young a = elim (Bool-cases (ltb 1 a)) [
  | inl y ↦ inr (inl refl, ground (arith, y))
  | inr n ↦ inl (ground (arith, n))
]
due survivor a = elim (Bool-cases (ltb 15 a)) [
  | inl y ↦ inr (inr refl, ground (arith, y))
  | inr n ↦ inl (ground (arith, n))
]
due old a = inl refl
due humongous a = inl refl
due pinned a = inl refl

-- Where a region of type `t` and age `a` goes when it has aged.
pub aged_kind : RegionType → ℕ → RegionType
aged_kind t a =
    if code t == 1 && ltb 1 a then survivor else if code t == 2 && ltb 15 a then old else t

-- Aging a region that the manager has never faults: it adds 1 to its age, moves it on from young
-- to survivor at age 2 and from survivor to old at age 16, and keeps the lists and counters in
-- order.
pub gc_region_age-IsLedger :
    (r : Region) (g : RegionManager)
    → IsLedger g
    → Registered r g
    → r.age + 1 < 2 ^ 32
    → (g' : RegionManager) × (gc_region_age r g ≡ some g')
      × IsLedger g'
      × (g'.regions r.id ≡ some (record r { age = r.age + 1; kind = aged_kind r.kind (r.age + 1) }))
unfolding gc_region_age aged_kind
gc_region_age-IsLedger r g ok here young_enough =
    let grown : u32 (r.age + 1) ≡ r.age + 1 = omega arith in
    let r' = record r { age = r.age + 1 } in
    let g' = record g { regions = put r.id r' g.regions } in
    let ok' : IsLedger g' = put-IsLedger r g ok here r' refl refl in
    let here' : Registered r' g' = put_here r.id r' g.regions in
    elim (due r.kind (r.age + 1)) [
      | inl stays ↦ (
        g',
        rw grown (ground (arith, stays)),
        ok',
        ground (arith, stays, put_here r.id r' g.regions),
      )
      | inr (kinds, goes) ↦
          let (g'', run, led, at) = promote-IsLedger r' g' ok' here' kinds in
          (g'', rw grown (ground (arith, goes, run)), led, at ∙ ground (arith, goes, kinds))
    ]
