-- ===== src/SizeClass/Fit.antt =====
-- The mapping of src/core/size_class.h between sizes and classes.
use native.Mathlib.Decide.{dec_lt, dec_le}
use nomalloc.Prelude.{
  ℕ, zero, suc, ◌+◌, ◌-◌, ◌≤◌, ◌<◌, ◌≡◌, inl, inr, refl, Bool, true, false, ◌||◌, List, [], ◌∷◌,
  ltb, leb, ◌==◌, get_or, length, arith, Bool-cases, all_below, all_below_sound, leb→le, le→leb,
  lt→ltb,
}
use nomalloc.SizeClass.{
  scan_classes, small_size_classes, medium_size_classes, size_to_class_small, size_to_class_medium,
  size_to_class, class_to_size,
}

-- Where the loop stops: at the first entry that is not below `size`.
pub record StopsAt (table : List ℕ) (size i : ℕ) (found : ℕ) : Type 0 where
  pub offset : ℕ
  pub place : found ≡ i + offset
  pub inside : offset < length table
  pub fits : size ≤ get_or table offset 0
  pub first : (j : ℕ) → j < offset → get_or table j 0 < size

StopsAt-later :
    {c : ℕ} {table : List ℕ} {size i found : ℕ}
    → c < size
    → StopsAt table size (i + 1) found
    → StopsAt (c ∷ table) size i found
StopsAt-later {c} {table} {size} {i} {found} h r = record {
  offset = suc r.offset;
  place = omega (arith, r.place);
  inside = omega (arith, r.inside);
  fits = r.fits;
  first = first_later;
}
  where
    first_later : (j : ℕ) → j < suc r.offset → get_or (c ∷ table) j 0 < size
    first_later zero l = h
    first_later (suc j) l = r.first j (omega arith)

scan_classes-StopsAt :
    (table : List ℕ) (size i d k : ℕ)
    → k < length table
    → size ≤ get_or table k 0
    → StopsAt table size i (scan_classes table size i d)
unfolding scan_classes
scan_classes-StopsAt [] size i d k b h = absurd (omega arith)
scan_classes-StopsAt (c ∷ table) size i d zero b h = rw (le→leb size c h) (record {
  offset = 0;
  place = omega arith;
  inside = omega arith;
  fits = h;
  first = λ j l. absurd (omega arith);
})
scan_classes-StopsAt (c ∷ table) size i d (suc k) b h = elim (Bool-cases (leb size c)) [
  | inl here ↦ rw here (record {
    offset = 0;
    place = omega arith;
    inside = omega arith;
    fits = leb→le size c here;
    first = λ j l. absurd (omega arith);
  })
  | inr later ↦
      rw later
        (StopsAt-later (ground arith) (scan_classes-StopsAt table size (i + 1) d k (omega arith) h))
]

pub size_to_class_small-StopsAt :
    (s : ℕ) → s ≤ 4096 → StopsAt small_size_classes s 0 (size_to_class_small s)
unfolding size_to_class_small
size_to_class_small-StopsAt s h = elim (Bool-cases (leb s 8)) [
  | inl tiny ↦ rw tiny (record {
    offset = 0;
    place = omega arith;
    inside = omega arith;
    fits = leb→le s 8 tiny;
    first = λ j l. absurd (omega arith);
  })
  | inr other ↦ rw other (scan_classes-StopsAt small_size_classes s 0 29 28 (omega arith) h)
]

pub size_to_class_medium-StopsAt :
    (s : ℕ) → 4096 < s → s ≤ 1048576 → StopsAt medium_size_classes s 30 (size_to_class_medium s)
unfolding size_to_class_medium
size_to_class_medium-StopsAt s l h =
    let t : leb s 4096 ≡ false = ground arith in
    rw t (scan_classes-StopsAt medium_size_classes s 30 46 16 (omega arith) h)

-- What is known of the class that a small or medium request gets.
record Chosen (s c : ℕ) : Type 0 where
  index : c < 47
  room : s ≤ class_to_size c
  smaller : (j : ℕ) → j < c → class_to_size j < s

pub class_to_size_small : (j : ℕ) → j < 30 → class_to_size j ≡ get_or small_size_classes j 0
unfolding class_to_size
class_to_size_small j h = rw (lt→ltb j 30 h)

pub class_to_size_medium :
    (j : ℕ) → j < 17 → class_to_size (30 + j) ≡ get_or medium_size_classes j 0
unfolding class_to_size
class_to_size_medium j h =
    let e : 30 + j - 30 ≡ j = omega arith in
    let t : ltb (30 + j) 30 ≡ false = ground arith in rw (t, lt→ltb (30 + j) 47 (omega arith), e)

pub class_to_size_none : (j : ℕ) → 47 ≤ j → class_to_size j ≡ 0
unfolding class_to_size
class_to_size_none j h = ground arith

pub small_table : all_below 30 (λ j. leb (class_to_size j) 4096) ≡ true
unfolding class_to_size
small_table = refl

-- The sizes grow with the index, but for the hole at index 29.
abbrev not_above : ℕ → ℕ → Bool
not_above j i = leb (class_to_size i) (class_to_size j)

abbrev row : ℕ → Bool
row j = class_to_size j == 0 || all_below (suc j) (not_above j)

sorted_table : all_below 47 row ≡ true
unfolding class_to_size
sorted_table = refl

sorted : (i j : ℕ) → i ≤ j → 0 < class_to_size j → class_to_size i ≤ class_to_size j
sorted i j l p = elim (dec_lt j 47) [
  | yes b ↦
      let checked : row j ≡ true = all_below_sound 47 row j sorted_table b in
      let below : all_below (suc j) (not_above j) ≡ true = or_right p checked in
      leb→le _ _ (all_below_sound (suc j) (not_above j) i below (omega arith))
  | no b ↦ absurd (omega (arith, class_to_size_none j (omega arith)))
]
  where
    or_right : {n : ℕ} {b : Bool} → 0 < n → (n == 0 || b) ≡ true → b ≡ true
    or_right h e = ground arith

Chosen-small : (s : ℕ) → s ≤ 4096 → Chosen s (size_to_class_small s)
Chosen-small s h =
    let r = size_to_class_small-StopsAt s h in
    let i : size_to_class_small s < 30 = omega (arith, r.place, r.inside) in
    let e : size_to_class_small s ≡ r.offset = omega (arith, r.place) in
    record {
      index = omega arith;
      room = rw (class_to_size_small _ i, e) r.fits;
      smaller = λ j l. rw (class_to_size_small j (omega arith)) (r.first j (omega arith));
    }

Chosen-medium : (s : ℕ) → 4096 < s → s ≤ 1048576 → Chosen s (size_to_class_medium s)
Chosen-medium s l h =
    let r = size_to_class_medium-StopsAt s l h in
    record {
      index = omega (arith, r.place, r.inside);
      room = rw (r.place, class_to_size_medium r.offset r.inside) r.fits;
      smaller = λ j b. elim (dec_lt j 30) [
        | yes low ↦ omega (
          arith,
          leb→le _ _ (all_below_sound 30 (λ i. leb (class_to_size i) 4096) j small_table low),
        )
        | no high ↦
            let m : j - 30 < r.offset = omega (arith, r.place) in
            let e : j ≡ 30 + (j - 30) = omega arith in
            rw (e, class_to_size_medium (j - 30) (omega (arith, r.inside))) (r.first (j - 30) m)
      ];
    }

Chosen-class : (s : ℕ) → s ≤ 1048576 → Chosen s (size_to_class s)
unfolding size_to_class
Chosen-class s h = elim (Bool-cases (leb s 4096)) [
  | inl small ↦ rw small (Chosen-small s (leb→le s 4096 small))
  | inr medium ↦ rw (medium, le→leb s 1048576 h) (Chosen-medium s (ground arith) h)
]

-- Best fit: up to 1 MB a request gets a class of the table whose size is enough, and no class
-- that is large enough is smaller.
pub size_to_class_best_fit :
    (s : ℕ)
    → 0 < s
    → s ≤ 1048576
    → (size_to_class s < 47)
      × (s ≤ class_to_size (size_to_class s))
      × ((j : ℕ) → s ≤ class_to_size j → class_to_size (size_to_class s) ≤ class_to_size j)
size_to_class_best_fit s p h =
    let c = Chosen-class s h in
    (
      c.index,
      c.room,
      λ j fits. elim (dec_lt j (size_to_class s)) [
        | yes l ↦ absurd (omega (arith, c.smaller j l))
        | no l ↦ sorted (size_to_class s) j (omega arith) (omega arith)
      ],
    )

-- A larger request never gets an earlier class, also across the bounds of the three layers.
pub size_to_class_mono : (s t : ℕ) → s ≤ t → size_to_class s ≤ size_to_class t
size_to_class_mono s t l = elim (dec_le t 1048576) [
  | yes small ↦ elim (dec_lt (size_to_class t) (size_to_class s)) [
    | yes less ↦
        absurd (
          omega (arith, (Chosen-class t small).room, (Chosen-class s (omega arith)).smaller _ less))
    | no ok ↦ omega arith
  ]
  | no large ↦
      let e : size_to_class t ≡ 47 = unfold size_to_class in ground arith in
      elim (dec_le s 1048576) [
        | yes fits ↦ omega (arith, (Chosen-class s fits).index)
        | no big ↦ unfold size_to_class in ground arith
      ]
]
