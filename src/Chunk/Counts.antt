-- ===== src/Chunk/Counts.antt =====
-- The clear bits of a bitmap, which src/memory/chunk.c counts in `free_blocks_count`.
use nomalloc.Prelude.{
  true, ℕ, zero, suc, ◌+◌, ◌*◌, ◌/◌, ◌≤◌, ◌<◌, ◌≡◌, ◌≢◌, refl, false, List, if◌then◌else◌, arith,
  length, length-set, get_or, bit-zero, replicate,
}
use nomalloc.Bitmap.{bitmap_get, bitmap_set, bitmap_clear_bit}
use nomalloc.Bitmap.Access.{bitmap_get-bit, bitmap_get-bitmap_set, bitmap_get-bitmap_clear_bit}

pub length-bitmap_set : (b : List ℕ) (i : ℕ) → length (bitmap_set b i) ≡ length b
unfolding bitmap_set
length-bitmap_set b i = length-set b _ _

-- The clear bits below a bound.
unfoldable pub clear_count : List ℕ → ℕ → ℕ
clear_count b zero = 0
clear_count b (suc n) = (if bitmap_get b n then 0 else 1) + clear_count b n

clear_count-set_above :
    (b : List ℕ) (i n : ℕ)
    → i < 64 * length b
    → n ≤ i
    → clear_count (bitmap_set b i) n ≡ clear_count b n
unfolding clear_count
clear_count-set_above b i zero room above = refl
clear_count-set_above b i (suc n) room above =
    ground (arith, bitmap_get-bitmap_set b i n room, clear_count-set_above b i n)

pub clear_count-set :
    (b : List ℕ) (i n : ℕ)
    → i < 64 * length b
    → i < n
    → bitmap_get b i ≡ false
    → clear_count (bitmap_set b i) n + 1 ≡ clear_count b n
unfolding clear_count
clear_count-set b i zero room below clear = absurd (omega arith)
clear_count-set b i (suc n) room below clear =
    ground
      (arith, bitmap_get-bitmap_set b i n room, clear_count-set b i n, clear_count-set_above b i n)

pub clear_count-le : (b : List ℕ) (n : ℕ) → clear_count b n ≤ n
unfolding clear_count
clear_count-le b zero = omega arith
clear_count-le b (suc n) = ground (arith, clear_count-le b n)

abbrev zeros : ℕ → List ℕ
zeros n = replicate n 0

get_or-replicate : (n i : ℕ) → get_or (zeros n) i 0 ≡ 0
get_or-replicate zero i = refl
get_or-replicate (suc n) zero = refl
get_or-replicate (suc n) (suc i) = get_or-replicate n i

pub bitmap_get-replicate : (n i : ℕ) → bitmap_get (replicate n 0) i ≡ false
bitmap_get-replicate n i =
    rw (bitmap_get-bit (replicate n 0) i, get_or-replicate n (i / 64), bit-zero) refl

pub clear_count-replicate : (k n : ℕ) → clear_count (replicate k 0) n ≡ n
unfolding clear_count
clear_count-replicate k zero = refl
clear_count-replicate k (suc n) =
    rw (bitmap_get-replicate k n, clear_count-replicate k n) (omega arith)

-- Without a clear bit below the bound the count is 0.
pub clear_count_none :
    (b : List ℕ) (n : ℕ) → ((k : ℕ) → k < n → bitmap_get b k ≢ false) → clear_count b n ≡ 0
unfolding clear_count
clear_count_none b zero all = refl
clear_count_none b (suc n) all =
    ground (arith, all n, clear_count_none b n (λ k l. all k (omega arith)))

pub length-bitmap_clear_bit : (b : List ℕ) (i : ℕ) → length (bitmap_clear_bit b i) ≡ length b
unfolding bitmap_clear_bit
length-bitmap_clear_bit b i = length-set b _ _

clear_count-clear_above :
    (b : List ℕ) (i n : ℕ)
    → i < 64 * length b
    → n ≤ i
    → clear_count (bitmap_clear_bit b i) n ≡ clear_count b n
unfolding clear_count
clear_count-clear_above b i zero room above = refl
clear_count-clear_above b i (suc n) room above =
    ground (arith, bitmap_get-bitmap_clear_bit b i n room, clear_count-clear_above b i n)

pub clear_count-clear :
    (b : List ℕ) (i n : ℕ)
    → i < 64 * length b
    → i < n
    → bitmap_get b i ≡ true
    → clear_count (bitmap_clear_bit b i) n ≡ clear_count b n + 1
unfolding clear_count
clear_count-clear b i zero room below taken = absurd (omega arith)
clear_count-clear b i (suc n) room below taken = ground (
  arith,
  bitmap_get-bitmap_clear_bit b i n room,
  clear_count-clear b i n,
  clear_count-clear_above b i n,
)
