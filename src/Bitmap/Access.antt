-- ===== src/Bitmap/Access.antt =====
-- Reading and writing single bits, of src/utils/bitmap.h.
use native.Mathlib.Decide.{ℕ_discrete}
use nomalloc.Prelude.{
  ℕ, zero, suc, ◌*◌, ◌/◌, ◌%◌, ◌^◌, ◌<◌, ◌≡◌, refl, true, false, not, List, arith, ◌==◌, [], ◌∷◌,
  if◌then◌else◌, bit_and, bit_or, not64, get_or, set, length, length-set, bit, bit-or, bit-and,
  bit-complement, bit-pow_self, bit-pow_ne, shift_mod-bit, bit_and-one, bit_and-pow, bit_and_low,
  bit_or-lt, bit_and-le, pow_mono, pow-pos, bit-lt,
}
use nomalloc.Bitmap.{
  bit_idx, mask, bitmap_get, bitmap_set, bitmap_clear_bit, bitmap_test_and_set,
  bitmap_test_and_clear,
}

-- Every word of the array is a 64-bit word.
abbrev pub IsWordList : List ℕ → Type 0
IsWordList bitmap = (i : ℕ) → get_or bitmap i 0 < 2 ^ 64

abbrev pub position : ℕ → ℕ
position index = index % 64

bit_idx-position : (i : ℕ) → bit_idx i ≡ position i
bit_idx-position i = bit_and_low 6 i

mask-pow : (i : ℕ) → mask i ≡ 2 ^ position i
mask-pow i = rw (bit_idx-position i) (omega (arith, pow_mono (i % 64) 63 (omega arith)))

one_test : (x : ℕ) → x < 2 → not (x == 0) ≡ (x == 1)
one_test x h = ground arith

pub bitmap_get-bit :
    (b : List ℕ) (i : ℕ) → bitmap_get b i ≡ (bit (get_or b (i / 64) 0) (i % 64) == 1)
unfolding bitmap_get
bitmap_get-bit b i =
    rw (bit_idx-position i, bit_and-one, shift_mod-bit)
      (one_test _ (bit-lt (get_or b (i / 64) 0) (i % 64)))

abbrev word_of : List ℕ → ℕ → ℕ
word_of b i = get_or b (i / 64) 0

bit_set : (w i j : ℕ) → bit (bit_or w (2 ^ i)) j ≡ (if i == j then 1 else bit w j)
bit_set w i j = elim (ℕ_discrete i j) [
  | yes e ↦ rw e (ground (arith, bit-or w (2 ^ j) j, bit-pow_self j, bit-lt w j))
  | no n ↦ ground (arith, bit-or w (2 ^ i) j, bit-pow_ne i j n)
]

bit_cleared :
    (w i j : ℕ)
    → i < 64
    → j < 64
    → bit (bit_and w (not64 (2 ^ i))) j ≡ (if i == j then 0 else bit w j)
bit_cleared w i j p q = elim (ℕ_discrete i j) [
  | yes e ↦ rw e (
      ground (
        arith,
        bit-and w (not64 (2 ^ j)) j,
        bit-complement 64 (2 ^ j) j (omega (arith, pow_mono j 63)) q,
        bit-pow_self j,
      ))
  | no n ↦ ground (
    arith,
    bit-and w (not64 (2 ^ i)) j,
    bit-complement 64 (2 ^ i) j (omega (arith, pow_mono i 63)) q,
    bit-pow_ne i j n,
    bit-lt w j,
  )
]

get_or-set :
    (xs : List ℕ) (i j v : ℕ)
    → i < length xs
    → get_or (set xs i v) j 0 ≡ (if i == j then v else get_or xs j 0)
get_or-set [] i j v h = absurd (omega arith)
get_or-set (x ∷ xs) zero zero v h = refl
get_or-set (x ∷ xs) zero (suc j) v h = ground arith
get_or-set (x ∷ xs) (suc i) zero v h = ground arith
get_or-set (x ∷ xs) (suc i) (suc j) v h = ground (arith, get_or-set xs i j v)

-- A write of one word changes one bit, if it changes one bit of that word.
write_bit :
    (b : List ℕ) (i j w x : ℕ)
    → i < 64 * length b
    → bit w (j % 64) ≡ (if i % 64 == j % 64 then x else bit (word_of b i) (j % 64))
    → bit (word_of (set b (i / 64) w) j) (j % 64)
      ≡ (if i == j then x else bit (word_of b j) (j % 64))
write_bit b i j w x h e = elim (ℕ_discrete (i / 64) (j / 64)) [
  | yes same ↦
      let got : word_of (set b (i / 64) w) j ≡ w =
        ground (arith, get_or-set b (i / 64) (j / 64) w) in
      rw (got, e, same) (ground arith)
  | no other ↦
      let got : word_of (set b (i / 64) w) j ≡ word_of b j =
        ground (arith, get_or-set b (i / 64) (j / 64) w) in
      rw got (ground arith)
]

-- After `bitmap_set` exactly the bit at the index reads true, and every other reads as before.
pub bitmap_get-bitmap_set :
    (b : List ℕ) (i j : ℕ)
    → i < 64 * length b
    → bitmap_get (bitmap_set b i) j ≡ (if i == j then true else bitmap_get b j)
unfolding bitmap_set
bitmap_get-bitmap_set b i j h =
    rw
      (
        bitmap_get-bit (set b (i / 64) (bit_or (word_of b i) (mask i))) j,
        bitmap_get-bit b j,
        mask-pow i,
      )
      (ground (
        arith,
        write_bit b i j (bit_or (word_of b i) (2 ^ (i % 64))) 1 h
            (bit_set (word_of b i) (i % 64) (j % 64)),
      ))

-- After `bitmap_clear_bit` exactly the bit at the index reads false, and every other as before.
pub bitmap_get-bitmap_clear_bit :
    (b : List ℕ) (i j : ℕ)
    → i < 64 * length b
    → bitmap_get (bitmap_clear_bit b i) j ≡ (if i == j then false else bitmap_get b j)
unfolding bitmap_clear_bit
bitmap_get-bitmap_clear_bit b i j h =
    rw
      (
        bitmap_get-bit (set b (i / 64) (bit_and (word_of b i) (not64 (mask i)))) j,
        bitmap_get-bit b j,
        mask-pow i,
      )
      (ground (
        arith,
        write_bit b i j (bit_and (word_of b i) (not64 (2 ^ (i % 64)))) 0 h
            (bit_cleared (word_of b i) (i % 64) (j % 64) (omega arith) (omega arith)),
      ))

scaled_test : (x p : ℕ) → x < 2 → 0 < p → not (x * p == 0) ≡ (x == 1)
scaled_test zero p h q = ground arith
scaled_test (suc zero) p h q = ground arith
scaled_test (suc (suc x)) p h q = absurd (omega arith)

mask_test : (b : List ℕ) (i : ℕ) → not (bit_and (word_of b i) (mask i) == 0) ≡ bitmap_get b i
mask_test b i =
    rw (mask-pow i, bitmap_get-bit b i, bit_and-pow)
      (scaled_test _ _ (bit-lt (word_of b i) (i % 64)) (pow-pos (i % 64)))

-- `bitmap_test_and_set` and `bitmap_test_and_clear` are the plain write together with the read
-- before it.
pub bitmap_test_and_write :
    (b : List ℕ) (i : ℕ)
    → (bitmap_test_and_set b i ≡ (bitmap_set b i, bitmap_get b i))
      × (bitmap_test_and_clear b i ≡ (bitmap_clear_bit b i, bitmap_get b i))
unfolding bitmap_test_and_set bitmap_test_and_clear bitmap_set bitmap_clear_bit
bitmap_test_and_write b i = (rw mask_test, rw mask_test)

set-IsWordList : (b : List ℕ) (i w : ℕ) → w < 2 ^ 64 → IsWordList b → IsWordList (set b i w)
set-IsWordList [] i w h ok j = ok j
set-IsWordList (x ∷ b) zero w h ok zero = h
set-IsWordList (x ∷ b) zero w h ok (suc j) = ok (suc j)
set-IsWordList (x ∷ b) (suc i) w h ok zero = ok zero
set-IsWordList (x ∷ b) (suc i) w h ok (suc j) = set-IsWordList b i w h (λ k. ok (suc k)) j

-- The writes keep the number of words, and every word a 64-bit word.
pub bitmap_writes-IsWordList :
    (b : List ℕ) (i : ℕ)
    → IsWordList b
    → IsWordList (bitmap_set b i)
      × IsWordList (bitmap_clear_bit b i)
      × (length (bitmap_set b i) ≡ length b)
      × (length (bitmap_clear_bit b i) ≡ length b)
unfolding bitmap_set bitmap_clear_bit
bitmap_writes-IsWordList b i ok = (
  set-IsWordList b _ _ (bit_or-lt 64 _ _ (ok _) (omega arith)) ok,
  set-IsWordList b _ _ (omega (arith, bit_and-le (word_of b i) (not64 (mask i)), ok (i / 64))) ok,
  length-set b _ _,
  length-set b _ _,
)
