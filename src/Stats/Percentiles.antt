-- ===== src/Stats/Percentiles.antt =====
-- The percentiles of src/debug/stats_collector.h.
use native.Mathlib.Decide.{dec_lt}
use nomalloc.Prelude.{
  ℕ, zero, suc, ◌+◌, ◌*◌, ◌/◌, ◌≤◌, ◌<◌, ◌≡◌, refl, ◌∙◌, ap, inl, inr, false, List, [], ◌∷◌, ltb,
  leb, ◌==◌, if◌then◌else◌, u64, get_or, length, arith, Bool-cases,
}
use nomalloc.Stats.Histogram.{percentile_loop, latency_histogram_get_p50, latency_histogram_get_p99}
use nomalloc.Stats.Samples.{add_all, add_all-Counts, samples_in, bucket_index}

-- The samples of the buckets before bucket `n`.
unfoldable pub before : ℕ → List ℕ → ℕ
before zero bs = 0
before (suc n) [] = 0
before (suc n) (b ∷ bs) = b + before n bs

-- The buckets up to bucket `k` have the samples that are asked for, and those before it have not.
abbrev pub Reaches : List ℕ → ℕ → ℕ → Type 0
Reaches bs target k =
    (k < length bs) × (target ≤ before (suc k) bs) × ((n : ℕ) → n < k → before (suc n) bs < target)

length_of_before : (bs : List ℕ) → 0 < before (length bs) bs → 0 < length bs
unfolding before
length_of_before [] h = h
length_of_before (b ∷ bs) h = omega arith

before_reached :
    (bs : List ℕ) (target cumulative b k : ℕ)
    → cumulative + b < target
    → ((n : ℕ) → n < k → cumulative + b + before (suc n) bs < target)
    → (n : ℕ) → n < suc k
    → cumulative + before (suc n) (b ∷ bs) < target
unfolding before
before_reached bs target cumulative b k short first zero lower = omega arith
before_reached bs target cumulative b k short first (suc n) lower =
    omega (arith, first n (omega arith))

percentile_loop_lem :
    (bs : List ℕ) (i size target cumulative last : ℕ)
    → target ≤ cumulative + before (length bs) bs
    → cumulative + before (length bs) bs < 18446744073709551616
    → 0 < length bs
    → (k : ℕ) × (k < length bs)
      × (percentile_loop bs i size target cumulative last ≡ u64 ((i + k) * size))
      × (target ≤ cumulative + before (suc k) bs)
      × ((n : ℕ) → n < k → cumulative + before (suc n) bs < target)
unfolding percentile_loop before
percentile_loop_lem [] i size target cumulative last enough word some_bucket = absurd (omega arith)
percentile_loop_lem (b ∷ bs) i size target cumulative last enough word some_bucket =
    elim (Bool-cases (leb target (u64 (cumulative + b)))) [
      | inl reached ↦ (
        0,
        omega arith,
        rw reached (ap (λ (t : ℕ). u64 (t * size)) (omega arith)),
        ground arith,
        λ n none. absurd (omega arith),
      )
      | inr short ↦
          let e : u64 (cumulative + b) ≡ cumulative + b = omega arith in
          let short' : cumulative + b < target = ground arith in
          let (k, below, found, reached, first) =
            percentile_loop_lem bs (i + 1) size target (u64 (cumulative + b)) last (omega arith)
              (omega arith) (length_of_before bs (omega arith)) in
          (
            suc k,
            omega arith,
            rw short (found ∙ ap (λ (t : ℕ). u64 (t * size)) (omega arith)),
            omega arith,
            before_reached bs target cumulative b k short'
                (λ n lower. ground (arith, first n lower)),
          )
    ]

-- The samples that belong to the buckets before bucket `n`.
unfoldable pub samples_below : ℕ → List ℕ → ℕ
samples_below n [] = 0
samples_below n (x ∷ xs) = (if ltb (bucket_index x) n then 1 else 0) + samples_below n xs

samples_below-zero : (xs : List ℕ) → samples_below 0 xs ≡ 0
unfolding samples_below
samples_below-zero [] = refl
samples_below-zero (x ∷ xs) = ground (arith, samples_below-zero xs)

samples_below-suc :
    (n : ℕ) (xs : List ℕ) → samples_below (suc n) xs ≡ samples_below n xs + samples_in n xs
unfolding samples_below samples_in
samples_below-suc n [] = refl
samples_below-suc n (x ∷ xs) = ground (arith, samples_below-suc n xs)

samples_in-le : (n : ℕ) (xs : List ℕ) → samples_in n xs ≤ length xs
unfolding samples_in
samples_in-le n [] = omega arith
samples_in-le n (x ∷ xs) = ground (arith, samples_in-le n xs)

samples_below_all : (xs : List ℕ) → samples_below 64 xs ≡ length xs
unfolding samples_below bucket_index
samples_below_all [] = refl
samples_below_all (x ∷ xs) = ground (arith, samples_below_all xs)

before-suc : (n : ℕ) (bs : List ℕ) → before (suc n) bs ≡ before n bs + get_or bs n 0
unfolding before
before-suc zero [] = refl
before-suc (suc n) [] = refl
before-suc zero (b ∷ bs) = omega arith
before-suc (suc n) (b ∷ bs) = omega (arith, before-suc n bs)

-- Bucket `k` is the first up to which there are as many samples as asked for.
abbrev pub IsFirstBucket : List ℕ → ℕ → ℕ → Type 0
IsFirstBucket xs target k =
    (k < 64)
    × (target ≤ samples_below (suc k) xs)
    × ((n : ℕ) → n < k → samples_below (suc n) xs < target)

module _ (xs : List ℕ) (few : length xs < 18446744073709551616) where
  before-add_all : (n : ℕ) → before n (add_all xs).buckets ≡ samples_below n xs
  unfolding before
  before-add_all zero = omega (arith, samples_below-zero xs)
  before-add_all (suc n) = omega (
    arith,
    before-suc n (add_all xs).buckets,
    samples_below-suc n xs,
    before-add_all n,
    (add_all-Counts xs).each n,
    samples_in-le n xs,
  )

  loop_first :
      (target : ℕ)
      → target ≤ length xs
      → (k : ℕ) × (percentile_loop
            (add_all xs).buckets
            0
            (add_all xs).bucket_size
            target
            0
            (add_all xs).max_ns
          ≡ k * 16)
        × IsFirstBucket xs target k
  loop_first target enough =
      let c = add_all-Counts xs in
      let all : before (length (add_all xs).buckets) (add_all xs).buckets ≡ length xs =
        ap (λ n. before n (add_all xs).buckets) c.room ∙ before-add_all 64 ∙ samples_below_all xs in
      let (k, below, found, reached, first) =
        percentile_loop_lem (add_all xs).buckets 0 (add_all xs).bucket_size target 0
          (add_all xs).max_ns (omega arith) (omega arith) (omega (arith, c.room)) in
      let low : k < 64 = omega (arith, c.room) in
      (
        k,
        found ∙ ap (λ w. u64 ((0 + k) * w)) c.width ∙ omega arith,
        (
          low,
          omega (arith, before-add_all (suc k)),
          λ n lower. omega (arith, first n lower, before-add_all (suc n)),
        ),
      )

-- The percentiles of a histogram of some samples, few enough for 64 bits, are the start of a
-- bucket: the first bucket up to which there is half, or 99 hundredths, of the samples, rounded
-- down. The loops find it before the end of the buckets, and `p50` is not above `p99`.
pub percentiles_lem :
    (xs : List ℕ)
    → 0 < length xs
    → length xs < 186330748219288400
    → (j : ℕ) × (k : ℕ) × (latency_histogram_get_p50 (add_all xs) ≡ j * 16)
      × (latency_histogram_get_p99 (add_all xs) ≡ k * 16)
      × IsFirstBucket xs (length xs / 2) j
      × IsFirstBucket xs (length xs * 99 / 100) k
      × (j ≤ k)
unfolding latency_histogram_get_p50 latency_histogram_get_p99
percentiles_lem xs some_sample few =
    let c = add_all-Counts xs in
    let total : (add_all xs).total_samples ≡ length xs = omega (arith, c.total) in
    let test : ((add_all xs).total_samples == 0) ≡ false = ground arith in
    let (j, p50, half) = loop_first xs (omega arith) (length xs / 2) (omega arith) in
    let (k, p99, most) = loop_first xs (omega arith) (length xs * 99 / 100) (omega arith) in
    let at_half : (add_all xs).total_samples / 2 ≡ length xs / 2 = omega arith in
    let at_most : u64 ((add_all xs).total_samples * 99) / 100 ≡ length xs * 99 / 100 =
      omega arith in
    (
      j,
      k,
      rw (latency_histogram_get_p50, test, at_half) p50,
      rw (latency_histogram_get_p99, test, at_most) p99,
      half,
      most,
      elim (dec_lt k j) [
        | yes less ↦ absurd (omega (arith, half.2 k less, most.1))
        | no not_less ↦ omega arith
      ],
    )
