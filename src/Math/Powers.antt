-- ===== src/Math/Powers.antt =====
-- The powers of two of src/utils/math.h.
use mathlib.Core.WellFounded
use mathlib.Core.Path.{subst}
use nomalloc.Prelude.{
  ℕ, zero, suc, ◌+◌, ◌-◌, ◌*◌, ◌/◌, ◌^◌, ◌≤◌, ◌<◌, ◌≡◌, ◌↔◌, ◌⊎◌, inl, inr, refl, sym, ap, false,
  arith, Bool-cases, pow-pos, pow_double, pow_mono, true, none, some, bit_and, bit_and_step,
  bit_and_self, u64, sub64, ◌∙◌, ltb, ltb→lt, lt→ltb,
}
use native.Mathlib.Nat.{add-zero}
use native.Mathlib.Decide.{dec_lt}
use nomalloc.Prelude.Order.{lt_wf}
use nomalloc.Math.{is_power_of_two, next_loop, next_power_of_two}

-- `val & (val - 1)` clears the lowest bit; one step of its digits.
pub clear_even : (u : ℕ) → 0 < u → bit_and (2 * u) (2 * u - 1) ≡ 2 * bit_and u (u - 1)
clear_even u h =
    let a : 2 * u / 2 ≡ u = omega arith in
    let b : (2 * u - 1) / 2 ≡ u - 1 = omega arith in
    let c : bit_and (2 * u / 2) ((2 * u - 1) / 2) ≡ bit_and u (u - 1) = rw (a, b) in
    omega (arith, bit_and_step (2 * u) (2 * u - 1))

pub clear_odd : (u : ℕ) → bit_and (2 * u + 1) (2 * u) ≡ 2 * u
clear_odd u =
    let a : (2 * u + 1) / 2 ≡ u = omega arith in
    let b : 2 * u / 2 ≡ u = omega arith in
    let c : bit_and ((2 * u + 1) / 2) (2 * u / 2) ≡ u = rw (a, b) (bit_and_self u) in
    omega (arith, bit_and_step (2 * u + 1) (2 * u))

pub clear_pow : (k : ℕ) → bit_and (2 ^ k) (2 ^ k - 1) ≡ 0
clear_pow zero = refl
clear_pow (suc k) = rw (pow_double k) (omega (arith, clear_even (2 ^ k) (pow-pos k), clear_pow k))

pub Even-or-odd : (v : ℕ) → ((u : ℕ) × (v ≡ 2 * u)) ⊎ ((u : ℕ) × (v ≡ 2 * u + 1))
Even-or-odd zero = inl (0, refl)
Even-or-odd (suc v) = elim (Even-or-odd v) [
  | inl (u, e) ↦ inr (u, omega arith)
  | inr (u, e) ↦ inl (u + 1, omega arith)
]

abbrev pub PowIfClear : ℕ → Type 0
PowIfClear v = 0 < v → bit_and v (v - 1) ≡ 0 → (k : ℕ) × (v ≡ 2 ^ k)

pub pow_of_clear : (v : ℕ) → PowIfClear v
pow_of_clear v = WellFounded.induction lt_wf {C = PowIfClear} v step
  where
    step : (n : ℕ) → ((m : ℕ) → m < n → PowIfClear m) → PowIfClear n
    step n ih pos clear = elim (Even-or-odd n) [
      | inl (u, e) ↦
          let c : 2 * bit_and u (u - 1) ≡ 0 =
            sym (clear_even u (omega arith)) ∙ subst (λ (t : ℕ). bit_and t (t - 1) ≡ 0) e clear in
          let (k, p) = ih u (omega arith) (omega arith) (omega arith) in
          (suc k, omega (arith, pow_double k))
      | inr (u, e) ↦
          let p : 2 * u + 1 - 1 ≡ 2 * u = omega arith in
          let c : bit_and (2 * u + 1) (2 * u + 1 - 1) ≡ 0 =
            subst (λ (t : ℕ). bit_and t (t - 1) ≡ 0) e clear in
          let z : 2 * u ≡ 0 = sym (clear_odd u) ∙ rw p at c in (0, omega arith)
    ]

-- `is_power_of_two` accepts exactly the powers of two among the 64-bit words.
pub is_power_of_two_iff :
    (v : ℕ) → v < 2 ^ 64 → (is_power_of_two v ≡ true) ↔ ((k : ℕ) × (v ≡ 2 ^ k))
unfolding is_power_of_two
is_power_of_two_iff v h = (
  λ t. pow_of_clear v (ground arith) (
      let m : sub64 v 1 ≡ v - 1 = ground arith in
      let c : bit_and v (sub64 v 1) ≡ 0 = ground arith in rw m at c),
  λ p.
      let m : sub64 v 1 ≡ v - 1 = omega (arith, pow-pos p.0) in
      let c : bit_and v (sub64 v 1) ≡ 0 = rw (m, p.1) (clear_pow p.0) in
      ground (arith, pow-pos p.0),
)

next_loop_again : (f r v : ℕ) → ltb r v ≡ true → next_loop (suc f) r v ≡ next_loop f (u64 (r * 2)) v
unfolding next_loop
next_loop_again f r v h = rw h

next_loop_done : (f r v : ℕ) → ltb r v ≡ false → next_loop (suc f) r v ≡ some r
unfolding next_loop
next_loop_done f r v h = rw h

next_loop-returns :
    (f i v : ℕ)
    → v ≤ 2 ^ (i + f)
    → i + f ≤ 63
    → 2 ^ i < 2 * v
    → (k : ℕ) × (next_loop (suc f) (2 ^ i) v ≡ some (2 ^ k)) × (v ≤ 2 ^ k) × (2 ^ k < 2 * v)
next_loop-returns zero i v h b l =
    let e : v ≤ 2 ^ i = rw add-zero at h in (i, next_loop_done 0 (2 ^ i) v (ground arith), e, l)
next_loop-returns (suc f) i v h b l = elim (Bool-cases (ltb (2 ^ i) v)) [
  | inl more ↦
      let d : u64 (2 ^ i * 2) ≡ 2 ^ suc i =
        omega (arith, pow_double i, pow_mono (suc i) 63 (omega arith)) in
      let h' : v ≤ 2 ^ (suc i + f) = subst (λ (t : ℕ). v ≤ 2 ^ t) (omega arith) h in
      let (k, p, q, r) =
        next_loop-returns f (suc i) v h' (omega arith)
          (omega (arith, pow_double i, ltb→lt _ _ more)) in
      (k, next_loop_again (suc f) (2 ^ i) v more ∙ ap (λ t. next_loop (suc f) t v) d ∙ p, q, r)
  | inr done ↦ (i, next_loop_done (suc f) (2 ^ i) v done, ground arith, l)
]

next_power_of_two_loops :
    (f v : ℕ) → 0 < v → is_power_of_two v ≡ false → next_power_of_two f v ≡ next_loop f 1 v
unfolding next_power_of_two
next_power_of_two_loops f v p other = rw other (ground arith)

-- From 1 up to 2^63 `next_power_of_two` ends within 64 rounds of its loop, with the least power of
-- two that is not below its argument: half of it is already smaller.
pub next_power_of_two_least :
    (v : ℕ)
    → 0 < v
    → v ≤ 2 ^ 63
    → (k : ℕ) × (next_power_of_two 64 v ≡ some (2 ^ k)) × (v ≤ 2 ^ k) × (2 ^ k < 2 * v)
unfolding next_power_of_two
next_power_of_two_least v p h = elim (Bool-cases (is_power_of_two v)) [
  | inl pow ↦
      let (k, e) = (is_power_of_two_iff v (omega arith)).0 pow in
      (k, ground arith, omega arith, omega arith)
  | inr other ↦
      let (k, e, q, r) = next_loop-returns 63 0 v h (omega arith) (omega arith) in
      (k, next_power_of_two_loops 64 v p other ∙ e, q, r)
]

next_loop_zero : (f v : ℕ) → 0 < v → next_loop f 0 v ≡ none
unfolding next_loop
next_loop_zero zero v h = refl
next_loop_zero (suc f) v h = ground (arith, next_loop_zero f v)

next_loop_stuck : (f i v : ℕ) → i ≤ 63 → 2 ^ 63 < v → next_loop f (2 ^ i) v ≡ none
unfolding next_loop
next_loop_stuck zero i v b h = refl
next_loop_stuck (suc f) i v b h =
    let more : ltb (2 ^ i) v ≡ true = lt→ltb _ _ (omega (arith, pow_mono i 63)) in
    elim (dec_lt i 63) [
      | yes l ↦
          let d : u64 (2 ^ i * 2) ≡ 2 ^ suc i =
            omega (arith, pow_double i, pow_mono (suc i) 63 l) in
          rw (more, d) (next_loop_stuck f (suc i) v l h)
      | no l ↦
          let e : i ≡ 63 = omega arith in
          let d : u64 (2 ^ i * 2) ≡ 0 = rw e refl in rw (more, d) (next_loop_zero f v (omega arith))
    ]

-- Above 2^63 the doubling wraps to 0, and `next_power_of_two` loops for ever: no number of rounds
-- is enough.
pub next_power_of_two_diverges :
    (fuel v : ℕ) → 2 ^ 63 < v → v < 2 ^ 64 → next_power_of_two fuel v ≡ none
unfolding next_power_of_two
next_power_of_two_diverges fuel v l h = elim (Bool-cases (is_power_of_two v)) [
  | inl pow ↦
      let (k, e) = (is_power_of_two_iff v h).0 pow in
      elim (dec_lt k 64) [
        | yes b ↦ absurd (omega (arith, pow_mono k 63))
        | no b ↦ absurd (omega (arith, pow_mono 64 k))
      ]
  | inr other ↦ rw other (ground (arith, next_loop_stuck fuel 0 v))
]
