-- ===== src/SizeClass/Classes.antt =====
-- The sizes of the classes of src/core/size_class.h, and rounding up to one.
use native.Mathlib.Decide.{dec_lt}
use nomalloc.Prelude.{
  ℕ, ◌-◌, ◌≤◌, ◌<◌, ◌≡◌, inl, inr, refl, Bool, true, ◌||◌, leb, ◌==◌, arith, Bool-cases, all_below,
  all_below_sound, leb→le, le→leb,
}
use nomalloc.SizeClass.{
  scan_classes, size_to_class_small, size_to_class_medium, size_to_class, class_to_size,
  size_class_align,
}
use nomalloc.SizeClass.Fit.{
  class_to_size_none, class_to_size_small, class_to_size_medium, size_to_class_small-StopsAt,
  size_to_class_medium-StopsAt,
}

-- `size_class_align` rounds a request up to the size of its class.
pub size_class_align-class :
    (page s : ℕ) → s ≤ 1048576 → size_class_align page s ≡ class_to_size (size_to_class s)
unfolding size_class_align size_to_class
size_class_align-class page s h = elim (Bool-cases (leb s 4096)) [
  | inl small ↦
      let r = size_to_class_small-StopsAt s (leb→le s 4096 small) in
      rw (small, class_to_size_small (size_to_class_small s) (omega (arith, r.place, r.inside)))
  | inr medium ↦
      let r = size_to_class_medium-StopsAt s (ground arith) h in
      let e : size_to_class_medium s - 30 ≡ r.offset = omega (arith, r.place) in
      rw (medium, le→leb s 1048576 h, e, r.place, class_to_size_medium r.offset r.inside)
]

abbrev round_trip : ℕ → Bool
round_trip c = class_to_size c == 0 || size_to_class (class_to_size c) == c

round_trip_table : all_below 47 round_trip ≡ true
unfolding class_to_size size_to_class size_to_class_small size_to_class_medium scan_classes
round_trip_table = refl

-- Every class of the table but the one of size 0 is the class of its own size.
pub size_to_class-class_to_size :
    (c : ℕ) → 0 < class_to_size c → size_to_class (class_to_size c) ≡ c
size_to_class-class_to_size c p = elim (dec_lt c 47) [
  | yes b ↦ second p (all_below_sound 47 round_trip c round_trip_table b)
  | no b ↦ absurd (omega (arith, class_to_size_none c (omega arith)))
]
  where
    second : {n m k : ℕ} → 0 < n → (n == 0 || m == k) ≡ true → m ≡ k
    second h e = ground arith
