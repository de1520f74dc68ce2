-- ===== src/Math/Logs.antt =====
-- The logarithms of src/utils/math.h.
use native.Mathlib.Decide.{dec_lt}
use nomalloc.Prelude.{
  ℕ, zero, suc, ◌+◌, ◌-◌, ◌*◌, ◌/◌, ◌^◌, ◌≤◌, ◌<◌, ◌≡◌, ◌∙◌, inl, inr, ap, true, false, some, arith,
  u32, ◌==◌, Bool-cases, pow_double, pow_mono,
}
use nomalloc.Math.{log2_loop, log2_u32, log2_u64, ceil_log2}

log2_loop_again :
    (f v r : ℕ) → (v / 2 == 0) ≡ false → log2_loop (suc f) v r ≡ log2_loop f (v / 2) (u32 (r + 1))
unfolding log2_loop
log2_loop_again f v r h = rw h

log2_loop_done : (f v r : ℕ) → (v / 2 == 0) ≡ true → log2_loop (suc f) v r ≡ some r
unfolding log2_loop
log2_loop_done f v r h = rw h

log2_loop-floor :
    (f v r : ℕ)
    → 0 < v
    → v < 2 ^ f
    → r + f ≤ 64
    → (k : ℕ) × (log2_loop f v r ≡ some (r + k)) × (2 ^ k ≤ v) × (v < 2 * 2 ^ k)
log2_loop-floor zero v r p h b = absurd (omega arith)
log2_loop-floor (suc f) v r p h b = elim (Bool-cases (v / 2 == 0)) [
  | inl done ↦
      let e : v ≡ 1 = ground arith in
      (0, log2_loop_done f v r done ∙ ap some (omega arith), omega arith, omega arith)
  | inr more ↦
      let (k, e, lo, hi) =
        log2_loop-floor f (v / 2) (u32 (r + 1)) (ground arith) (omega (arith, pow_double f))
          (omega arith) in
      (
        suc k,
        log2_loop_again f v r more ∙ e ∙ ap some (omega arith),
        omega (arith, pow_double k),
        omega (arith, pow_double k),
      )
]

log2_loops : (f v : ℕ) → 0 < v → (log2_u32 f v ≡ log2_loop f v 0) × (log2_u64 f v ≡ log2_loop f v 0)
unfolding log2_u32 log2_u64
log2_loops f v p = (ground arith, ground arith)

-- `log2_u64` ends within 64 rounds on every positive word, with the exponent of the greatest power
-- of two that is not above it.
pub log2_u64_floor :
    (v : ℕ)
    → 0 < v
    → v < 2 ^ 64
    → (k : ℕ) × (log2_u64 64 v ≡ some k) × (2 ^ k ≤ v) × (v < 2 * 2 ^ k)
log2_u64_floor v p h =
    let (k, e, lo, hi) = log2_loop-floor 64 v 0 p h (omega arith) in
    (k, (log2_loops 64 v p).1 ∙ e ∙ ap some (omega arith), lo, hi)

-- The same for `log2_u32` within 32 rounds on every positive 32-bit word.
pub log2_u32_floor :
    (v : ℕ)
    → 0 < v
    → v < 2 ^ 32
    → (k : ℕ) × (log2_u32 32 v ≡ some k) × (2 ^ k ≤ v) × (v < 2 * 2 ^ k)
log2_u32_floor v p h =
    let (k, e, lo, hi) = log2_loop-floor 32 v 0 p h (omega arith) in
    (k, (log2_loops 32 v p).0 ∙ e ∙ ap some (omega arith), lo, hi)

ceil_log2_loops :
    (f v : ℕ) {r : ℕ} → 1 < v → log2_u32 f (v - 1) ≡ some r → ceil_log2 f v ≡ some (u32 (r + 1))
unfolding ceil_log2
ceil_log2_loops f v p e = ground arith

-- `ceil_log2` gives the least exponent whose power of two is not below a 32-bit word above 1.
pub ceil_log2_least :
    (v : ℕ)
    → 1 < v
    → v < 2 ^ 32
    → (c : ℕ) × (ceil_log2 32 v ≡ some c) × (v ≤ 2 ^ c) × (2 ^ c < 2 * v)
ceil_log2_least v p h =
    let (k, e, lo, hi) = log2_u32_floor (v - 1) (omega arith) (omega arith) in
    let small : k < 32 = elim (dec_lt k 32) [
      | yes l ↦ l
      | no l ↦ absurd (omega (arith, pow_mono 32 k))
    ] in
    (
      suc k,
      ceil_log2_loops 32 v p e ∙ ap some (omega arith),
      omega (arith, pow_double k),
      omega (arith, pow_double k),
    )
