-- ===== src/Allocator/Sizes.antt =====
-- How many bytes `allocator_malloc` asks the C library for.
use native.Mathlib.Decide.{dec_lt}
use nomalloc.Prelude.{◌⊎◌, inl, inr, ℕ, ◌+◌, ◌-◌, ◌^◌, ◌≤◌, ◌<◌, arith}
use nomalloc.Math.{align_up}
use nomalloc.Allocator.Ops.{malloc_total_size}

-- Up to 2^64 - 64 bytes the total holds the header, the request and 16 bytes more, with less than
-- 16 bytes of rounding; above that bound the sum wraps and at most 48 bytes are asked for, too few
-- for the request.
pub malloc_total_size_bounds :
    (size : ℕ)
    → 0 < size
    → size < 2 ^ 64
    → ((size ≤ 2 ^ 64 - 64)
        × (size + 48 ≤ malloc_total_size size)
        × (malloc_total_size size < size + 64))
      ⊎ ((2 ^ 64 - 64 < size) × (malloc_total_size size ≤ 48))
unfolding malloc_total_size align_up
malloc_total_size_bounds size p h = elim (dec_lt (2 ^ 64 - 64) size) [
  | yes over ↦ inr (over, omega arith)
  | no fits ↦ inl (omega arith, omega arith, omega arith)
]

pub malloc_total_size_fits :
    (size : ℕ)
    → 0 < size
    → size ≤ 2 ^ 64 - 64
    → (size + 48 ≤ malloc_total_size size) × (malloc_total_size size < size + 64)
malloc_total_size_fits size p fits = elim (malloc_total_size_bounds size p (omega arith)) [
  | inl (low, a, b) ↦ (a, b)
  | inr (over, a) ↦ absurd (omega arith)
]
