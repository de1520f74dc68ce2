-- ===== src/Prelude/Masks.antt =====
-- Bounds of `&` and `|`, and masks of low bits.
use Prim.Native.Nat.{
  ℕ, zero, suc, ◌+◌, ◌-◌, ◌*◌, ◌/◌, ◌%◌, ◌^◌, ◌≤◌, ◌<◌, bit_and, bit_or, bit_and-bitwise,
}
use mathlib.Core.Path.{◌≡◌, ap, ◌∙◌}
use mathlib.Core.WellFounded
use native.Mathlib.Nat.{div-add-mod, mod-lt}
use nomalloc.Prelude.Order.{lt_wf}
use native.Mathlib.Omega.{arith}
use nomalloc.Prelude.Bits.{bit_and_step, bit_or_step, bit_and-zero, pow-pos, pow_double}

pub bit_and-le : (a b : ℕ) → bit_and a b ≤ a
bit_and-le a = WellFounded.induction lt_wf {C = λ n. (b : ℕ) → bit_and n b ≤ n} a step
  where
    step : (n : ℕ) → ((m : ℕ) → m < n → (b : ℕ) → bit_and m b ≤ m) → (b : ℕ) → bit_and n b ≤ n
    step zero ih b = omega (arith, bit_and-bitwise 0 b)
    step (suc n) ih b = omega (arith, bit_and_step (suc n) b, ih (suc n / 2) (omega arith) (b / 2))

pub bit_and-le_right : (a b : ℕ) → bit_and a b ≤ b
bit_and-le_right a = WellFounded.induction lt_wf {C = λ n. (b : ℕ) → bit_and n b ≤ b} a step
  where
    step : (n : ℕ) → ((m : ℕ) → m < n → (b : ℕ) → bit_and m b ≤ b) → (b : ℕ) → bit_and n b ≤ b
    step zero ih b = omega (arith, bit_and-bitwise 0 b)
    step (suc n) ih b = omega (arith, bit_and_step (suc n) b, ih (suc n / 2) (omega arith) (b / 2))

low_field : (k q r : ℕ) → r < 2 ^ k → bit_and (q * 2 ^ k + r) (2 ^ k - 1) ≡ r
low_field zero q r h = omega (arith, bit_and-zero (q * 1 + r))
low_field (suc k) q r h =
    let e : (2 ^ suc k - 1) / 2 ≡ 2 ^ k - 1 = omega (arith, pow_double k) in
    let d : q * 2 ^ suc k ≡ 2 * (q * 2 ^ k) = omega (arith, ap (λ (t : ℕ). q * t) (pow_double k)) in
    let half : (q * 2 ^ suc k + r) / 2 ≡ q * 2 ^ k + r / 2 = omega arith in
    let ih : bit_and ((q * 2 ^ suc k + r) / 2) ((2 ^ suc k - 1) / 2) ≡ r / 2 =
      rw (half, e) (low_field k q (r / 2) (omega (arith, pow_double k))) in
    omega (arith, bit_and_step (q * 2 ^ suc k + r) (2 ^ suc k - 1), pow_double k, pow-pos k)

-- A mask of the `k` low bits is the remainder by `2 ^ k`.
pub bit_and_low : (k a : ℕ) → bit_and a (2 ^ k - 1) ≡ a % 2 ^ k
bit_and_low k a =
    let e : a ≡ a / 2 ^ k * 2 ^ k + a % 2 ^ k = omega (arith, div-add-mod a (2 ^ k)) in
    ap (λ (t : ℕ). bit_and t (2 ^ k - 1)) e
    ∙ low_field k (a / 2 ^ k) (a % 2 ^ k) (mod-lt a (pow-pos k))

pub bit_or-lt : (k a b : ℕ) → a < 2 ^ k → b < 2 ^ k → bit_or a b < 2 ^ k
bit_or-lt zero a b p q =
    let e : a ≡ 0 = omega arith in let f : b ≡ 0 = omega arith in rw (e, f) (omega arith)
bit_or-lt (suc k) a b p q = omega (
  arith,
  bit_or_step a b,
  pow_double k,
  bit_or-lt k (a / 2) (b / 2) (omega (arith, pow_double k)) (omega (arith, pow_double k)),
)
