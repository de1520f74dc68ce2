-- ===== src/Prelude/Bits.antt =====
-- The bits of a word: `|`, `&` and `^` of the native numbers, bit by bit at every position.
use Prim.Native.Nat.{
  ℕ, zero, suc, ◌+◌, ◌-◌, ◌*◌, ◌/◌, ◌%◌, ◌^◌, ◌≤◌, ◌<◌, min, max, bit_and, bit_or, digits,
  bit_and-bitwise, bit_or-bitwise,
}
use mathlib.Core.Path.{◌≡◌, refl, ap, sym, ◌∙◌}
use mathlib.Core.Logic.{◌≢◌}
use mathlib.Core.WellFounded
use native.Mathlib.Nat.{pow-suc, one-le-pow, pow-le-pow_right, div-div-eq-div-mul}
use native.Mathlib.Decide.{ℕ_discrete}
use nomalloc.Prelude.Order.{lt_wf}
use native.Mathlib.Omega.{arith}

-- The native operations recurse on binary digits with their first argument as fuel. One round of
-- fuel more than needed changes nothing, so any amount that is enough gives the same digits.
module _ (pad : ℕ → ℕ) (op : ℕ → ℕ → ℕ) where
  one_round_more :
      (rounds u v : ℕ) → u ≤ rounds → digits pad op (suc rounds) u v ≡ digits pad op rounds u v
  one_round_more zero zero v small = refl
  one_round_more zero (suc u) v small = absurd (omega arith)
  one_round_more (suc rounds) zero v small = refl
  one_round_more (suc rounds) (suc u) v small =
      ap (λ (high : ℕ). high * 2 + op (suc u % 2) (v % 2))
        (one_round_more rounds (suc u / 2) (v / 2) (omega arith))

  enough_rounds : (rounds u v : ℕ) → u ≤ rounds → digits pad op rounds u v ≡ digits pad op u u v
  enough_rounds zero zero v small = refl
  enough_rounds zero (suc u) v small = absurd (omega arith)
  enough_rounds (suc rounds) u v small = elim (ℕ_discrete u (suc rounds)) [
    | yes same ↦ ap (λ (t : ℕ). digits pad op t u v) (sym same)
    | no less ↦ one_round_more rounds u v (omega arith) ∙ enough_rounds rounds u v (omega arith)
  ]

pub bit_and_step : (u v : ℕ) → bit_and u v ≡ bit_and (u / 2) (v / 2) * 2 + min (u % 2) (v % 2)
bit_and_step zero v = simp bit_and-bitwise (omega arith)
bit_and_step (suc u) v =
    simp bit_and-bitwise
      (omega (arith, enough_rounds (λ t. 0) min u (suc u / 2) (v / 2) (omega arith)))

pub pow-pos : (k : ℕ) → 0 < 2 ^ k
pow-pos k = omega (arith, one-le-pow k 2)

pub bit_or_step : (u v : ℕ) → bit_or u v ≡ bit_or (u / 2) (v / 2) * 2 + max (u % 2) (v % 2)
bit_or_step zero v = simp bit_or-bitwise (omega arith)
bit_or_step (suc u) v =
    simp bit_or-bitwise
      (omega (arith, enough_rounds (λ t. t) max u (suc u / 2) (v / 2) (omega arith)))

no_common_bits : (bound u : ℕ) → u ≤ bound → bit_and u 0 ≡ 0
no_common_bits bound zero small = refl
no_common_bits zero (suc u) small = absurd (omega arith)
no_common_bits (suc bound) (suc u) small =
    let half = no_common_bits bound (suc u / 2) (omega arith) in
    omega (arith, half, bit_and_step (suc u) 0)

pub bit_and-zero : (a : ℕ) → bit_and a 0 ≡ 0
bit_and-zero a = no_common_bits a a (omega arith)

pub pow_double : (k : ℕ) → 2 ^ suc k ≡ 2 * 2 ^ k
pow_double k = omega (arith, pow-suc 2 k)

pub pow_mono : (j k : ℕ) → j ≤ k → 2 ^ j ≤ 2 ^ k
pow_mono j k h = pow-le-pow_right (omega arith) h

-- Bit `j` of `a`, as 0 or 1.
unfoldable pub bit : ℕ → ℕ → ℕ
bit a zero = a % 2
bit a (suc j) = bit (a / 2) j

pub bit-suc : (a j : ℕ) → bit a (suc j) ≡ bit (a / 2) j
unfolding bit
bit-suc a j = refl

pub bit_low : (a : ℕ) → bit a 0 ≡ a % 2
unfolding bit
bit_low a = refl

pub bit-lt : (a j : ℕ) → bit a j < 2
unfolding bit
bit-lt a zero = omega arith
bit-lt a (suc j) = bit-lt (a / 2) j

pub bit-or : (a b j : ℕ) → bit (bit_or a b) j ≡ max (bit a j) (bit b j)
unfolding bit
bit-or a b zero = omega (arith, bit_or_step a b)
bit-or a b (suc j) =
    let e : bit_or a b / 2 ≡ bit_or (a / 2) (b / 2) = omega (arith, bit_or_step a b) in
    rw e (bit-or (a / 2) (b / 2) j)

pub bit-and : (a b j : ℕ) → bit (bit_and a b) j ≡ min (bit a j) (bit b j)
unfolding bit
bit-and a b zero = omega (arith, bit_and_step a b)
bit-and a b (suc j) =
    let e : bit_and a b / 2 ≡ bit_and (a / 2) (b / 2) = omega (arith, bit_and_step a b) in
    rw e (bit-and (a / 2) (b / 2) j)

-- A word below `2 ^ k` has a complement, whose low bits are all turned.
pub bit-complement : (k a j : ℕ) → a < 2 ^ k → j < k → bit (2 ^ k - 1 - a) j ≡ 1 - bit a j
unfolding bit
bit-complement zero a j h p = absurd (omega arith)
bit-complement (suc k) a zero h p = omega (arith, pow-suc 2 k)
bit-complement (suc k) a (suc j) h p =
    let e : (2 ^ suc k - 1 - a) / 2 ≡ 2 ^ k - 1 - a / 2 = omega (arith, pow-suc 2 k) in
    rw e (bit-complement k (a / 2) j (omega (arith, pow-suc 2 k)) (omega arith))

pub bit-pow_self : (j : ℕ) → bit (2 ^ j) j ≡ 1
unfolding bit
bit-pow_self zero = refl
bit-pow_self (suc j) =
    let e : 2 ^ suc j / 2 ≡ 2 ^ j = omega (arith, pow-suc 2 j) in rw e (bit-pow_self j)

pub bit-zero : (j : ℕ) → bit 0 j ≡ 0
unfolding bit
bit-zero zero = refl
bit-zero (suc j) = bit-zero j

pub bit-pow_ne : (i j : ℕ) → i ≢ j → bit (2 ^ i) j ≡ 0
unfolding bit
bit-pow_ne zero zero h = absurd (h refl)
bit-pow_ne zero (suc j) h = bit-zero j
bit-pow_ne (suc i) zero h = omega (arith, pow-suc 2 i)
bit-pow_ne (suc i) (suc j) h =
    let e : 2 ^ suc i / 2 ≡ 2 ^ i = omega (arith, pow-suc 2 i) in
    rw e (bit-pow_ne i j (λ q. h (ap suc q)))

-- The form in which C reads a bit.
pub shift_mod-bit : (a j : ℕ) → a / 2 ^ j % 2 ≡ bit a j
unfolding bit
shift_mod-bit a zero = omega arith
shift_mod-bit a (suc j) =
    let e : 2 ^ suc j ≡ 2 * 2 ^ j = omega (arith, pow-suc 2 j) in
    rw (e, ← div-div-eq-div-mul a 2 (2 ^ j)) (shift_mod-bit (a / 2) j)

-- A test of one bit by `&` with a mask of that bit.
pub bit_and-pow : (a j : ℕ) → bit_and a (2 ^ j) ≡ bit a j * 2 ^ j
unfolding bit
bit_and-pow a zero = omega (arith, bit_and_step a 1, bit_and-zero (a / 2))
bit_and-pow a (suc j) =
    let e : 2 ^ suc j / 2 ≡ 2 ^ j = omega (arith, pow-suc 2 j) in
    let ih : bit_and (a / 2) (2 ^ suc j / 2) ≡ bit (a / 2) j * 2 ^ j =
      rw e (bit_and-pow (a / 2) j) in
    omega (
      arith,
      bit_and_step a (2 ^ suc j),
      pow-suc 2 j,
      ap (λ (t : ℕ). bit (a / 2) j * t) (pow-suc 2 j),
    )

pub bit_and_self : (a : ℕ) → bit_and a a ≡ a
bit_and_self a = WellFounded.induction lt_wf a step
  where
    step : (n : ℕ) → ((m : ℕ) → m < n → bit_and m m ≡ m) → bit_and n n ≡ n
    step zero ih = refl
    step (suc n) ih = omega (arith, bit_and_step (suc n) (suc n), ih (suc n / 2) (omega arith))

-- A word is its own intersection with the mask of all its bits.
pub bit_and_full : (w a : ℕ) → a < 2 ^ w → bit_and a (2 ^ w - 1) ≡ a
bit_and_full zero a h = omega (arith, bit_and-zero a)
bit_and_full (suc w) a h =
    let e : (2 ^ suc w - 1) / 2 ≡ 2 ^ w - 1 = omega (arith, pow-suc 2 w) in
    let ih : bit_and (a / 2) ((2 ^ suc w - 1) / 2) ≡ a / 2 =
      rw e (bit_and_full w (a / 2) (omega (arith, pow-suc 2 w))) in
    omega (arith, bit_and_step a (2 ^ suc w - 1), pow-suc 2 w, one-le-pow w 2)

-- Clearing the `k` low bits of a word by a mask is rounding down to a multiple of `2 ^ k`.
pub bit_and_high : (k w a : ℕ) → k ≤ w → a < 2 ^ w → bit_and a (2 ^ w - 2 ^ k) ≡ a / 2 ^ k * 2 ^ k
bit_and_high zero w a p h = omega (arith, bit_and_full w a h)
bit_and_high (suc k) zero a p h = absurd (omega arith)
bit_and_high (suc k) (suc w) a p h =
    let e : (2 ^ suc w - 2 ^ suc k) / 2 ≡ 2 ^ w - 2 ^ k = omega (arith, pow-suc 2 w, pow-suc 2 k) in
    let ih : bit_and (a / 2) ((2 ^ suc w - 2 ^ suc k) / 2) ≡ a / 2 / 2 ^ k * 2 ^ k =
      rw e (bit_and_high k w (a / 2) (omega arith) (omega (arith, pow-suc 2 w))) in
    let d : 2 ^ suc k ≡ 2 * 2 ^ k = omega (arith, pow-suc 2 k) in
    let q : a / 2 ^ suc k ≡ a / 2 / 2 ^ k = rw (d, div-div-eq-div-mul a 2 (2 ^ k)) in
    rw q (
      omega (
        arith,
        bit_and_step a (2 ^ suc w - 2 ^ suc k),
        pow-suc 2 w,
        ap (λ (t : ℕ). a / 2 / 2 ^ k * t) d,
      ))

-- The number of ones among the `w` low bits.
unfoldable pub ones : ℕ → ℕ → ℕ
ones zero a = 0
ones (suc w) a = ones w a + bit a w

pub ones_step : (w a : ℕ) → ones (suc w) a ≡ a % 2 + ones w (a / 2)
unfolding ones bit
ones_step zero a = omega arith
ones_step (suc w) a = omega (arith, ones_step w a)

pub ones-le : (w a : ℕ) → ones w a ≤ w
unfolding ones
ones-le zero a = omega arith
ones-le (suc w) a = omega (arith, ones-le w a, bit-lt a w)

pub ones-zero : (w : ℕ) → ones w 0 ≡ 0
unfolding ones
ones-zero zero = refl
ones-zero (suc w) = omega (arith, ones-zero w, bit-zero w)

pub bit_and-one : (a : ℕ) → bit_and a 1 ≡ a % 2
bit_and-one a = omega (arith, bit_and_step a 1, bit_and-zero (a / 2))
