-- ===== src/Math/Previous.antt =====
-- `prev_power_of_two` of src/utils/math.h.
use nomalloc.Prelude.{
  ℕ, zero, suc, ◌+◌, ◌-◌, ◌*◌, ◌^◌, ◌≤◌, ◌<◌, ◌≡◌, ◌≢◌, inl, inr, refl, sym, ap, arith, pow_double,
  pow_mono, some, bit_and, bit_and-le, sub64, ◌∙◌,
}
use native.Mathlib.Decide.{ℕ_discrete}
use nomalloc.Math.{prev_loop, prev_power_of_two}
use nomalloc.Math.Powers.{Even-or-odd, clear_even, clear_odd}

prev_loop_again :
    (f v : ℕ)
    → bit_and v (sub64 v 1) ≢ 0
    → prev_loop (suc f) v ≡ prev_loop f (bit_and v (sub64 v 1))
unfolding prev_loop
prev_loop_again f v h = ground arith

prev_loop_done : (f v : ℕ) → bit_and v (sub64 v 1) ≡ 0 → prev_loop (suc f) v ≡ some v
unfolding prev_loop
prev_loop_done f v h = ground arith

clear_even64 :
    (u : ℕ) → 0 < u → 2 * u < 2 ^ 64 → bit_and (2 * u) (sub64 (2 * u) 1) ≡ 2 * bit_and u (sub64 u 1)
clear_even64 u p b =
    let m : sub64 (2 * u) 1 ≡ 2 * u - 1 = omega arith in
    let n : sub64 u 1 ≡ u - 1 = omega arith in rw (m, n) (clear_even u p)

clear_odd64 : (u : ℕ) → 2 * u + 1 < 2 ^ 64 → bit_and (2 * u + 1) (sub64 (2 * u + 1) 1) ≡ 2 * u
clear_odd64 u b = let m : sub64 (2 * u + 1) 1 ≡ 2 * u = omega arith in rw m (clear_odd u)

-- The loop on an even number runs as on its half, and one round more of fuel changes nothing.
prev_loop_even :
    (f u r : ℕ)
    → 0 < u
    → 2 * u < 2 ^ 64
    → prev_loop f u ≡ some r
    → prev_loop f (2 * u) ≡ some (2 * r)
prev_loop_even zero u r p b e = absurd (unfold prev_loop in ground arith)
prev_loop_even (suc f) u r p b e = elim (ℕ_discrete (bit_and u (sub64 u 1)) 0) [
  | yes z ↦
      let q : some u ≡ some r = sym (prev_loop_done f u z) ∙ e in
      prev_loop_done f (2 * u) (omega (arith, clear_even64 u p b)) ∙ ground arith
  | no n ↦
      let ih : prev_loop f (2 * bit_and u (sub64 u 1)) ≡ some (2 * r) =
        prev_loop_even f (bit_and u (sub64 u 1)) r (omega arith)
          (omega (arith, bit_and-le u (sub64 u 1))) (sym (prev_loop_again f u n) ∙ e) in
      prev_loop_again f (2 * u) (λ z. n (omega (arith, clear_even64 u p b)))
      ∙ ap (prev_loop f) (clear_even64 u p b)
      ∙ ih
]

prev_loop_more : (f v r : ℕ) → prev_loop f v ≡ some r → prev_loop (suc f) v ≡ some r
prev_loop_more zero v r e = absurd (unfold prev_loop in ground arith)
prev_loop_more (suc f) v r e = elim (ℕ_discrete (bit_and v (sub64 v 1)) 0) [
  | yes z ↦ prev_loop_done (suc f) v z ∙ sym (prev_loop_done f v z) ∙ e
  | no n ↦
      prev_loop_again (suc f) v n
      ∙ prev_loop_more f (bit_and v (sub64 v 1)) r (sym (prev_loop_again f v n) ∙ e)
]

abbrev PrevFloor : ℕ → ℕ → Type 0
PrevFloor w v = (k : ℕ) × (prev_loop w v ≡ some (2 ^ k)) × (2 ^ k ≤ v) × (v < 2 * 2 ^ k)

prev_loop-floor : (w v : ℕ) → 0 < v → v < 2 ^ w → w ≤ 64 → PrevFloor w v
prev_loop-floor zero v p h b = absurd (omega arith)
prev_loop-floor (suc w) v p h b = elim (Even-or-odd v) [
  | inl (u, e) ↦
      let (k, q, lo, hi) =
        prev_loop-floor w u (omega arith) (omega (arith, pow_double w)) (omega arith) in
      (
        suc k,
        ap (prev_loop (suc w)) e
            ∙ (prev_loop_more w (2 * u) (2 * 2 ^ k) (
                  prev_loop_even w u (2 ^ k) (omega arith) (omega (arith, pow_mono (suc w) 64 b)) q)
                ∙ ap some (sym (pow_double k))),
        omega (arith, pow_double k),
        omega (arith, pow_double k),
      )
  | inr (u, e) ↦ elim (ℕ_discrete u 0) [
    | yes z ↦
        let o : v ≡ 1 = omega arith in
        (0, ap (prev_loop (suc w)) o ∙ prev_loop_done w 1 refl, omega arith, omega arith)
    | no n ↦
        let (k, q, lo, hi) =
          prev_loop-floor w u (omega arith) (omega (arith, pow_double w)) (omega arith) in
        (
          suc k,
          ap (prev_loop (suc w)) e
              ∙ (let room : 2 * u + 1 < 2 ^ 64 = omega (arith, pow_mono (suc w) 64 b) in
                  prev_loop_again w (2 * u + 1) (λ z. absurd (omega (arith, clear_odd64 u room)))
                  ∙ ap (prev_loop w) (clear_odd64 u room)
                  ∙ prev_loop_even w u (2 ^ k) (omega arith) (omega arith) q
                  ∙ ap some (sym (pow_double k))),
          omega (arith, pow_double k),
          omega (arith, pow_double k),
        )
  ]
]

-- `prev_power_of_two` ends within 64 rounds on every positive word, with the greatest power of two
-- that is not above it.
pub prev_power_of_two_greatest :
    (v : ℕ)
    → 0 < v
    → v < 2 ^ 64
    → (k : ℕ) × (prev_power_of_two 64 v ≡ some (2 ^ k)) × (2 ^ k ≤ v) × (v < 2 * 2 ^ k)
prev_power_of_two_greatest v p h =
    let (k, q, lo, hi) = prev_loop-floor 64 v p h (omega arith) in
    (k, unfold prev_power_of_two in ground arith, lo, hi)
