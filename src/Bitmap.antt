-- ===== src/Bitmap.antt =====
-- The bitmaps of src/utils/bitmap.h: an array of 64-bit words as a list. A read out of the array,
-- which C leaves undefined, gives 0 here and a write there changes nothing; the theorems ask for
-- an index within the array.
pub mod Access
pub mod Scan
pub mod Words
use nomalloc.Prelude.{
  ℕ, zero, suc, ◌+◌, ◌-◌, ◌*◌, ◌/◌, ◌%◌, ◌^◌, Bool, true, false, not, List, [], ◌∷◌, map, Option,
  none, some, ltb, ◌==◌, if◌then◌else◌, bit_and, bit_or, bit_xor, u64, not64, get_or, set,
  replicate,
}

abbrev pub word_idx : ℕ → ℕ
word_idx index = index / 2 ^ 6

abbrev pub bit_idx : ℕ → ℕ
bit_idx index = bit_and index 63

-- `1ULL << bit_idx`
abbrev pub mask : ℕ → ℕ
mask index = u64 (1 * 2 ^ bit_idx index)

unfoldable pub bitmap_size : ℕ → ℕ
bitmap_size num_bits = u64 (num_bits + 64 - 1) / 2 ^ 6

unfoldable pub bitmap_init : ℕ → Bool → List ℕ
bitmap_init num_bits value = replicate (bitmap_size num_bits) (if value then 2 ^ 64 - 1 else 0)

unfoldable pub bitmap_get : List ℕ → ℕ → Bool
bitmap_get bitmap index =
    not (bit_and (get_or bitmap (word_idx index) 0 / 2 ^ bit_idx index) 1 == 0)

unfoldable pub bitmap_set : List ℕ → ℕ → List ℕ
bitmap_set bitmap index =
    set bitmap (word_idx index) (bit_or (get_or bitmap (word_idx index) 0) (mask index))

unfoldable pub bitmap_clear_bit : List ℕ → ℕ → List ℕ
bitmap_clear_bit bitmap index =
    set bitmap (word_idx index) (bit_and (get_or bitmap (word_idx index) 0) (not64 (mask index)))

unfoldable pub bitmap_set_bit : List ℕ → ℕ → Bool → List ℕ
bitmap_set_bit bitmap index value =
    if value then bitmap_set bitmap index else bitmap_clear_bit bitmap index

-- The new bitmap, and whether the bit was set.
unfoldable pub bitmap_test_and_set : List ℕ → ℕ → List ℕ × Bool
bitmap_test_and_set bitmap index =
    let old = get_or bitmap (word_idx index) 0 in
    (set bitmap (word_idx index) (bit_or old (mask index)), not (bit_and old (mask index) == 0))

unfoldable pub bitmap_test_and_clear : List ℕ → ℕ → List ℕ × Bool
bitmap_test_and_clear bitmap index =
    let old = get_or bitmap (word_idx index) 0 in
    (
      set bitmap (word_idx index) (bit_and old (not64 (mask index))),
      not (bit_and old (mask index) == 0),
    )

-- The inner loop of the two searches, at bit `j` of word `i` with `left` bits to go: the first
-- index below `num_bits` whose bit is `wanted`.
unfoldable pub find_bit : Bool → ℕ → ℕ → ℕ → ℕ → ℕ → Option ℕ
find_bit wanted word i num_bits zero j = none
find_bit wanted word i num_bits (suc left) j =
    let rest = find_bit wanted word i num_bits left (j + 1) in
    if bit_and (word / 2 ^ j) 1 == (if wanted then 1 else 0)
    then if ltb (i * 2 ^ 6 + j) num_bits then some (i * 2 ^ 6 + j) else rest
    else rest

-- The outer loop, at word `i` with `left` words to go.
unfoldable pub find_word : Bool → List ℕ → ℕ → ℕ → ℕ → ℕ
find_word wanted bitmap num_bits zero i = num_bits
find_word wanted bitmap num_bits (suc left) i =
    let word = get_or bitmap i 0 in
    let rest = find_word wanted bitmap num_bits left (i + 1) in
    if word == (if wanted then 0 else 2 ^ 64 - 1)
    then rest
    else elim (find_bit wanted word i num_bits 64 0) [ none ↦ rest | some index ↦ index ]

unfoldable pub bitmap_find_first_set : List ℕ → ℕ → ℕ
bitmap_find_first_set bitmap num_bits = find_word true bitmap num_bits (bitmap_size num_bits) 0

unfoldable pub bitmap_find_first_clear : List ℕ → ℕ → ℕ
bitmap_find_first_clear bitmap num_bits = find_word false bitmap num_bits (bitmap_size num_bits) 0
