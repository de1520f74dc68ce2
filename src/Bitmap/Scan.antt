-- ===== src/Bitmap/Scan.antt =====
-- The searches of src/utils/bitmap.h for a set or a clear bit.
use native.Mathlib.Nat.{add_assoc, add-zero}
use native.Mathlib.Decide.{dec_lt, ℕ_discrete}
use nomalloc.Prelude.{
  ℕ, zero, suc, ◌+◌, ◌-◌, ◌*◌, ◌/◌, ◌%◌, ◌^◌, ◌≤◌, ◌<◌, ◌≡◌, ◌≢◌, refl, Bool, true, false, List,
  arith, ◌==◌, if◌then◌else◌, bit_and, get_or, bit-complement, inl, inr, Bool-cases, Option, none,
  some, ltb, ltb→lt, bit-zero, shift_mod-bit, bit_and-one, bit-lt,
}
use nomalloc.Bitmap.{
  bitmap_size, bitmap_get, find_bit, find_word, bitmap_find_first_set, bitmap_find_first_clear,
}
use nomalloc.Bitmap.Access.{bitmap_get-bit}

-- `r` is the first index below `n` whose bit is `wanted`, or `n` if there is none.
pub record IsFirstWith (wanted : Bool) (b : List ℕ) (n r : ℕ) : Type 0 where
  pub bounded : r ≤ n
  pub found : r < n → bitmap_get b r ≡ wanted
  pub before : (k : ℕ) → k < r → bitmap_get b k ≢ wanted

module _ (wanted : Bool) (b : List ℕ) (n : ℕ) where
  -- No index in `[lo, hi)` below `n` has the wanted bit.
  abbrev Missing : ℕ → ℕ → Type 0
  Missing lo hi = (k : ℕ) → lo ≤ k → k < hi → k < n → bitmap_get b k ≢ wanted

  abbrev Searched : ℕ → ℕ → Option ℕ → Type 0
  Searched lo hi none = Missing lo hi
  Searched lo hi (some r) = (lo ≤ r) × (r < n) × (bitmap_get b r ≡ wanted) × Missing lo r

  Missing-cons :
      (lo hi : ℕ) → (lo < n → bitmap_get b lo ≢ wanted) → Missing (lo + 1) hi → Missing lo hi
  Missing-cons lo hi miss rest k p q l = elim (ℕ_discrete k lo) [
    | yes e ↦ rw e (miss (omega arith))
    | no m ↦ rest k (omega arith) q l
  ]

  Searched-next :
      (lo hi : ℕ) (o : Option ℕ)
      → (lo < n → bitmap_get b lo ≢ wanted)
      → Searched (lo + 1) hi o
      → Searched lo hi o
  Searched-next lo hi none miss s = Missing-cons lo hi miss s
  Searched-next lo hi (some r) miss s = (omega (arith, s.0), s.1, s.2, Missing-cons lo r miss s.3)

  -- The test of the inner loop reads the bit that `bitmap_get` reads.
  test-get :
      (i j : ℕ)
      → j < 64
      → bit_and (get_or b i 0 / 2 ^ j) 1 ≡ (if bitmap_get b (i * 64 + j) then 1 else 0)
  test-get i j h =
      let w : (i * 64 + j) / 64 ≡ i = omega arith in
      let p : (i * 64 + j) % 64 ≡ j = omega arith in
      rw (bitmap_get-bit b (i * 64 + j), w, p, bit_and-one, shift_mod-bit)
        (ground (arith, bit-lt (get_or b i 0) j))

  hit : (x y : Bool) → ((if x then 1 else 0) == (if y then 1 else 0)) ≡ true → x ≡ y
  hit x y h = ground arith

  miss : (x y : Bool) → ((if x then 1 else 0) == (if y then 1 else 0)) ≡ false → x ≢ y
  miss x y h = ground arith

  find_bit-Searched :
      (i left j : ℕ)
      → j + left ≡ 64
      → Searched (i * 64 + j) (i * 64 + 64) (find_bit wanted (get_or b i 0) i n left j)
  unfolding find_bit
  find_bit-Searched i zero j e = λ k p q l. absurd (omega arith)
  find_bit-Searched i (suc left) j e =
      let t = test-get i j (omega arith) in
      let rest : Searched (i * 64 + j + 1) (i * 64 + 64)
          (find_bit wanted (get_or b i 0) i n left (j + 1)) =
        rw (add_assoc (i * 64) j 1) (find_bit-Searched i left (j + 1) (omega arith)) in
      rw t
        (elim (Bool-cases
          ((if bitmap_get b (i * 64 + j) then 1 else 0) == (if wanted then 1 else 0))) [
            | inl same ↦ elim (Bool-cases (ltb (i * 64 + j) n)) [
              | inl inside ↦
                  rw (same, inside)
                    (omega arith, ltb→lt _ _ inside, hit _ _ same, λ k p q l. absurd (omega arith))
              | inr outside ↦
                  rw (same, outside) (Searched-next _ _ _ (λ l. absurd (ground arith)) rest)
            ]
            | inr other ↦ rw other (Searched-next _ _ _ (λ l. miss _ _ other) rest)
          ])

  Missing-append : (lo mid hi : ℕ) → Missing lo mid → Missing mid hi → Missing lo hi
  Missing-append lo mid hi f g k p q l = elim (dec_lt k mid) [
    | yes b ↦ f k p b l
    | no b ↦ g k (omega arith) q l
  ]

  -- A word that the outer loop passes over has no wanted bit.
  skipped :
      (i : ℕ)
      → (get_or b i 0 == (if wanted then 0 else 2 ^ 64 - 1)) ≡ true
      → Missing (i * 64) (i * 64 + 64)
  skipped i e k p q l =
      let j = k - i * 64 in
      let w : k / 64 ≡ i = omega arith in
      let d : k % 64 ≡ j = omega arith in
      rw (bitmap_get-bit b k, w, d)
        (ground (arith, bit-zero j, bit-complement 64 0 j (omega arith) (omega arith)))

  IsFirstWith-end : Missing 0 n → IsFirstWith wanted b n n
  IsFirstWith-end m = record {
    bounded = omega arith;
    found = λ l. absurd (omega arith);
    before = λ k l. m k (omega arith) l l;
  }

  IsFirstWith-found :
      (lo hi r : ℕ) → Missing 0 lo → Searched lo hi (some r) → IsFirstWith wanted b n r
  IsFirstWith-found lo hi r m s = record {
    bounded = omega (arith, s.1);
    found = λ l. s.2;
    before = λ k l. Missing-append 0 lo r m s.3 k (omega arith) l (omega (arith, s.1));
  }

  find_word-IsFirstWith :
      (left i : ℕ)
      → n ≤ (i + left) * 64
      → Missing 0 (i * 64)
      → IsFirstWith wanted b n (find_word wanted b n left i)
  unfolding find_word
  find_word-IsFirstWith zero i h m = IsFirstWith-end (λ k p q l. m k p (omega arith) l)
  find_word-IsFirstWith (suc left) i h m =
      let next : Missing (i * 64) (i * 64 + 64)
          → IsFirstWith wanted b n (find_word wanted b n left (i + 1)) =
        λ g.
          find_word-IsFirstWith left (i + 1) (omega arith)
            (λ k p q l. Missing-append 0 (i * 64) (i * 64 + 64) m g k p (omega arith) l) in
      elim (Bool-cases (get_or b i 0 == (if wanted then 0 else 2 ^ 64 - 1))) [
        | inl skip ↦ rw skip (next (skipped i skip))
        | inr look ↦ rw look (
            after_bits (find_bit wanted (get_or b i 0) i n 64 0)
              (rw add-zero at (find_bit-Searched i 64 0 refl)) next)
      ]
    where
      after_bits :
          (o : Option ℕ)
          → Searched (i * 64) (i * 64 + 64) o
          → (Missing (i * 64) (i * 64 + 64)
              → IsFirstWith wanted b n (find_word wanted b n left (i + 1)))
          → IsFirstWith wanted b n
              (elim o [ none ↦ find_word wanted b n left (i + 1) | some index ↦ index ])
      after_bits none s next = next s
      after_bits (some r) s next = IsFirstWith-found (i * 64) (i * 64 + 64) r m s

-- `bitmap_find_first_set` and `bitmap_find_first_clear` return the least index below `num_bits`
-- whose bit is set or clear, and `num_bits` where there is none.
pub bitmap_find_first-IsFirstWith :
    (b : List ℕ) (n : ℕ)
    → n + 63 < 2 ^ 64
    → IsFirstWith true b n (bitmap_find_first_set b n)
      × IsFirstWith false b n (bitmap_find_first_clear b n)
unfolding bitmap_find_first_set bitmap_find_first_clear bitmap_size
bitmap_find_first-IsFirstWith b n h = (
  find_word-IsFirstWith true b n _ 0 (omega arith) (λ k p q l. absurd (omega arith)),
  find_word-IsFirstWith false b n _ 0 (omega arith) (λ k p q l. absurd (omega arith)),
)
