-- ===== src/Math/Align.antt =====
-- Rounding to a multiple, of src/utils/math.h.
use native.Mathlib.Nat.{
  div-mul-le_self, lt-div-mul-add, one-le-pow, mul-mod_left, lt_of_mul-lt-mul_right,
}
use nomalloc.Prelude.{
  ℕ, ◌+◌, ◌-◌, ◌*◌, ◌/◌, ◌%◌, ◌^◌, ◌≤◌, ◌<◌, ◌≡◌, arith, bit_and_high, sub64, not64, u64,
}
use nomalloc.Math.{align_up, align_down, round_up_pow2, round_down_pow2}

align_up_quotient : (v a : ℕ) → 0 < a → v + a ≤ 2 ^ 64 → align_up v a ≡ (v + a - 1) / a * a
unfolding align_up
align_up_quotient v a p h =
    let s : sub64 (u64 (v + a)) 1 ≡ v + a - 1 = omega arith in
    let b : (v + a - 1) / a * a ≤ v + a - 1 = div-mul-le_self (v + a - 1) a in rw s (ground arith)

-- Without overflow `align_up` is the least multiple of the alignment that is not below the value:
-- it is below every other such multiple, and exceeds the value by less than the alignment.
pub align_up_least :
    (v a : ℕ)
    → 0 < a
    → v + a ≤ 2 ^ 64
    → (v ≤ align_up v a)
      × (align_up v a < v + a)
      × (align_up v a % a ≡ 0)
      × ((m : ℕ) → v ≤ m * a → align_up v a ≤ m * a)
align_up_least v a p h = rw (align_up_quotient v a p h) (
  omega (arith, lt-div-mul-add {a = v + a - 1} p),
  omega (arith, div-mul-le_self (v + a - 1) a),
  mul-mod_left _ a,
  λ m l.
      let k : (v + a - 1) / a < m + 1 =
        lt_of_mul-lt-mul_right a (omega (arith, div-mul-le_self (v + a - 1) a)) in
      grind arith,
)

-- The masks of `round_up_pow2` and `round_down_pow2` do what the divisions of `align_up` and
-- `align_down` do, for every power of two that a word holds.
pub round_pow2-align :
    (v k : ℕ)
    → k < 64
    → v + 2 ^ k ≤ 2 ^ 64
    → (round_up_pow2 v (2 ^ k) ≡ align_up v (2 ^ k))
      × (round_down_pow2 v (2 ^ k) ≡ align_down v (2 ^ k))
unfolding round_up_pow2 round_down_pow2 align_up align_down
round_pow2-align v k hk h =
    let s : sub64 (u64 (v + 2 ^ k)) 1 ≡ v + 2 ^ k - 1 = omega (arith, one-le-pow k 2) in
    let n : not64 (sub64 (2 ^ k) 1) ≡ 2 ^ 64 - 2 ^ k = omega (arith, one-le-pow k 2) in
    (
      rw (s, n)
          (ground (
            arith,
            one-le-pow k 2,
            div-mul-le_self (v + 2 ^ k - 1) (2 ^ k),
            bit_and_high k 64 (v + 2 ^ k - 1),
          )),
      rw n (ground (arith, one-le-pow k 2, div-mul-le_self v (2 ^ k), bit_and_high k 64 v)),
    )
