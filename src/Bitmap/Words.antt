-- ===== src/Bitmap/Words.antt =====
-- The operations of src/utils/bitmap.h on whole words: counts, combinations and tests.
use nomalloc.Prelude.{
  ℕ, zero, suc, ◌+◌, ◌*◌, ◌-◌, ◌^◌, Bool, true, false, List, Option, none, some, ◌==◌, ◌&&◌,
  if◌then◌else◌, bit_and, bit_or, bit_xor, u64, sub64, not64, get_or, set,
}
use nomalloc.Math.{popcount_loop}
use nomalloc.Bitmap.{bitmap_size, bitmap_init}

unfoldable pub bitmap_alloc_size : ℕ → ℕ
bitmap_alloc_size num_bits = u64 (bitmap_size num_bits * 8)

unfoldable pub bitmap_clear : ℕ → List ℕ
bitmap_clear num_bits = bitmap_init num_bits false

unfoldable pub bitmap_fill : ℕ → List ℕ
bitmap_fill num_bits = bitmap_init num_bits true

-- The loop over the words from `i` on, with `left` words to go. The inner loop needs at most 65
-- rounds for a word.
unfoldable pub count_loop : List ℕ → ℕ → ℕ → ℕ → Option ℕ
count_loop bitmap zero i count = some count
count_loop bitmap (suc left) i count = elim (popcount_loop 65 (get_or bitmap i 0) count) [
  | none ↦ none
  | some counted ↦ count_loop bitmap left (i + 1) counted
]

unfoldable pub bitmap_count_set : List ℕ → ℕ → Option ℕ
bitmap_count_set bitmap num_bits = count_loop bitmap (bitmap_size num_bits) 0 0

unfoldable pub bitmap_count_clear : List ℕ → ℕ → Option ℕ
bitmap_count_clear bitmap num_bits = elim (bitmap_count_set bitmap num_bits) [
  | none ↦ none
  | some count ↦ some (sub64 num_bits count)
]

-- `dst[i] = f(src1[i], src2[i])` for `left` words from `i` on.
unfoldable pub combine_loop : (ℕ → ℕ → ℕ) → ℕ → ℕ → List ℕ → List ℕ → List ℕ → List ℕ
combine_loop f zero i dst src1 src2 = dst
combine_loop f (suc left) i dst src1 src2 =
    combine_loop f left (i + 1) (set dst i (f (get_or src1 i 0) (get_or src2 i 0))) src1 src2

unfoldable pub bitmap_or : List ℕ → List ℕ → List ℕ → ℕ → List ℕ
bitmap_or dst src1 src2 num_bits =
    combine_loop (λ a b. bit_or a b) (bitmap_size num_bits) 0 dst src1 src2

unfoldable pub bitmap_and : List ℕ → List ℕ → List ℕ → ℕ → List ℕ
bitmap_and dst src1 src2 num_bits =
    combine_loop (λ a b. bit_and a b) (bitmap_size num_bits) 0 dst src1 src2

unfoldable pub bitmap_xor : List ℕ → List ℕ → List ℕ → ℕ → List ℕ
bitmap_xor dst src1 src2 num_bits =
    combine_loop (λ a b. bit_xor a b) (bitmap_size num_bits) 0 dst src1 src2

unfoldable pub bitmap_not : List ℕ → List ℕ → ℕ → List ℕ
bitmap_not dst src num_bits = combine_loop (λ a b. not64 a) (bitmap_size num_bits) 0 dst src src

-- Are the words from `i` on, `left` of them, all equal to `wanted`?
unfoldable pub all_words : ℕ → List ℕ → ℕ → ℕ → Bool
all_words wanted bitmap zero i = true
all_words wanted bitmap (suc left) i =
    let rest = all_words wanted bitmap left (i + 1) in
    if get_or bitmap i 0 == wanted then rest else false

unfoldable pub bitmap_is_empty : List ℕ → ℕ → Bool
bitmap_is_empty bitmap num_bits = all_words 0 bitmap (bitmap_size num_bits) 0

unfoldable pub bitmap_is_full : List ℕ → ℕ → Bool
bitmap_is_full bitmap num_bits = all_words (2 ^ 64 - 1) bitmap (bitmap_size num_bits) 0

-- The comparison of the bytes by `memcmp`, word by word.
unfoldable pub equal_loop : List ℕ → List ℕ → ℕ → ℕ → Bool
equal_loop bitmap1 bitmap2 zero i = true
equal_loop bitmap1 bitmap2 (suc left) i =
    get_or bitmap1 i 0 == get_or bitmap2 i 0 && equal_loop bitmap1 bitmap2 left (i + 1)

unfoldable pub bitmap_equal : List ℕ → List ℕ → ℕ → Bool
bitmap_equal bitmap1 bitmap2 num_bits = equal_loop bitmap1 bitmap2 (bitmap_size num_bits) 0
