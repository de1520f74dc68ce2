-- ===== src/Math/Counts.antt =====
-- The bit counts of src/utils/math.h.
use native.Mathlib.Decide.{ℕ_discrete}
use nomalloc.Prelude.{
  ℕ, zero, suc, ◌+◌, ◌/◌, ◌%◌, ◌^◌, ◌≤◌, ◌<◌, ◌≡◌, ◌≢◌, ◌∙◌, refl, ap, some, arith, u32, u64,
  pow_double, bit_and, bit_and-one, ones, ones_step, ones-zero, bit, bit-suc, bit_low,
}
use nomalloc.Math.{popcount_loop, popcount_u64, trailing_loop, count_trailing_zeros_u64}

popcount_loop_again :
    (f v c : ℕ)
    → 0 < v
    → popcount_loop (suc f) v c ≡ popcount_loop f (v / 2) (u64 (c + bit_and v 1))
unfolding popcount_loop
popcount_loop_again f v c h = ground arith

popcount_loop_done : (f c : ℕ) → popcount_loop (suc f) 0 c ≡ some c
unfolding popcount_loop
popcount_loop_done f c = refl

popcount_loop-ones :
    (f v c : ℕ) → v < 2 ^ f → c + f ≤ 128 → popcount_loop (suc f) v c ≡ some (c + ones f v)
popcount_loop-ones f zero c h b = popcount_loop_done f c ∙ ap some (omega (arith, ones-zero f))
popcount_loop-ones zero (suc v) c h b = absurd (omega arith)
popcount_loop-ones (suc f) (suc v) c h b =
    let next : u64 (c + bit_and (suc v) 1) ≡ c + suc v % 2 = omega (arith, bit_and-one (suc v)) in
    popcount_loop_again (suc f) (suc v) c (omega arith)
    ∙ ap (popcount_loop (suc f) (suc v / 2)) next
    ∙ popcount_loop-ones f (suc v / 2) (c + suc v % 2) (omega (arith, pow_double f)) (omega arith)
    ∙ ap some (omega (arith, ones_step f (suc v)))

-- `popcount_u64` ends on every word and counts the positions below 64 that hold a one.
pub popcount_ones : (v : ℕ) → v < 2 ^ 64 → popcount_u64 65 v ≡ some (ones 64 v)
unfolding popcount_u64
popcount_ones v h = popcount_loop-ones 64 v 0 h (omega arith) ∙ ap some (omega arith)

trailing_loop_again :
    (f v c : ℕ) → v % 2 ≡ 0 → trailing_loop (suc f) v c ≡ trailing_loop f (v / 2) (u32 (c + 1))
unfolding trailing_loop
trailing_loop_again f v c h = ground (arith, bit_and-one v)

trailing_loop_done : (f v c : ℕ) → v % 2 ≢ 0 → trailing_loop (suc f) v c ≡ some c
unfolding trailing_loop
trailing_loop_done f v c h = ground (arith, bit_and-one v)

lower_bits :
    (v k : ℕ)
    → v % 2 ≡ 0
    → ((j : ℕ) → j < k → bit (v / 2) j ≡ 0)
    → (j : ℕ) → j < suc k
    → bit v j ≡ 0
unfolding bit
lower_bits v k even low zero l = even
lower_bits v k even low (suc j) l = low j (omega arith)

trailing_loop-lowest :
    (f v c : ℕ)
    → 0 < v
    → v < 2 ^ f
    → c + f ≤ 64
    → (k : ℕ) × (trailing_loop f v c ≡ some (c + k))
      × (bit v k ≡ 1)
      × ((j : ℕ) → j < k → bit v j ≡ 0)
trailing_loop-lowest zero v c p h b = absurd (omega arith)
trailing_loop-lowest (suc f) v c p h b = elim (ℕ_discrete (v % 2) 0) [
  | yes even ↦
      let (k, e, one, low) =
        trailing_loop-lowest f (v / 2) (u32 (c + 1)) (omega arith) (omega (arith, pow_double f))
          (omega arith) in
      (
        suc k,
        trailing_loop_again f v c even ∙ e ∙ ap some (omega arith),
        bit-suc v k ∙ one,
        lower_bits v k even low,
      )
  | no odd ↦ (
    0,
    trailing_loop_done f v c odd ∙ ap some (omega arith),
    omega (arith, bit_low v),
    λ j l. absurd (omega arith),
  )
]

trailing_loops : (f v : ℕ) → 0 < v → count_trailing_zeros_u64 f v ≡ trailing_loop f v 0
unfolding count_trailing_zeros_u64
trailing_loops f v p = ground arith

-- `count_trailing_zeros_u64` ends within 64 rounds and gives the position of the lowest one.
pub trailing_zeros_lowest :
    (v : ℕ)
    → 0 < v
    → v < 2 ^ 64
    → (k : ℕ) × (count_trailing_zeros_u64 64 v ≡ some k)
      × (bit v k ≡ 1)
      × ((j : ℕ) → j < k → bit v j ≡ 0)
trailing_zeros_lowest v p h =
    let (k, e, one, low) = trailing_loop-lowest 64 v 0 p h (omega arith) in
    (k, trailing_loops 64 v p ∙ e ∙ ap some (omega arith), one, low)
