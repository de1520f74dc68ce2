-- ===== src/Stats/Samples.antt =====
-- The histograms of src/debug/stats_collector.h against the samples that were added.
use nomalloc.Prelude.{
  ℕ, zero, suc, ◌+◌, ◌/◌, ◌<◌, ◌≡◌, refl, ◌∙◌, List, [], ◌∷◌, ltb, ◌==◌, if◌then◌else◌, u64, get_or,
  set, length, length-set, replicate, arith,
}
use nomalloc.Stats.Histogram.{
  LatencyHistogram, latency_histogram_init, bucket_of, latency_histogram_add,
}

-- The samples that the histogram has counted, the last one first.
unfoldable pub add_all : List ℕ → LatencyHistogram
unfolding latency_histogram_init latency_histogram_add
add_all [] = latency_histogram_init
add_all (x ∷ xs) = latency_histogram_add x (add_all xs)

-- The bucket a sample belongs to: 16 ns each, and the last one for all from 1008 ns on.
unfoldable pub bucket_index : ℕ → ℕ
bucket_index x = if ltb (x / 16) 64 then x / 16 else 63

unfoldable pub samples_in : ℕ → List ℕ → ℕ
samples_in i [] = 0
samples_in i (x ∷ xs) = (if bucket_index x == i then 1 else 0) + samples_in i xs

unfoldable pub sum : List ℕ → ℕ
sum [] = 0
sum (x ∷ xs) = x + sum xs

unfoldable pub largest : List ℕ → ℕ
largest [] = 0
largest (x ∷ xs) = if ltb (largest xs) x then x else largest xs

-- The fields of a histogram as functions of the samples.
pub record Counts (xs : List ℕ) (h : LatencyHistogram) : Type 0 where
  pub width : h.bucket_size ≡ 16
  pub number : h.max_buckets ≡ 64
  pub room : length h.buckets ≡ 64
  pub each : (i : ℕ) → get_or h.buckets i 0 ≡ u64 (samples_in i xs)
  pub total : h.total_samples ≡ u64 (length xs)
  pub added : h.sum_ns ≡ u64 (sum xs)
  pub greatest : h.max_ns ≡ largest xs

get_or-set :
    (xs : List ℕ) (i j v : ℕ)
    → i < length xs
    → get_or (set xs i v) j 0 ≡ (if i == j then v else get_or xs j 0)
get_or-set [] i j v h = absurd (omega arith)
get_or-set (x ∷ xs) zero zero v h = refl
get_or-set (x ∷ xs) zero (suc j) v h = ground arith
get_or-set (x ∷ xs) (suc i) zero v h = ground arith
get_or-set (x ∷ xs) (suc i) (suc j) v h = ground (arith, get_or-set xs i j v)

get_or-zeros : (n i : ℕ) → get_or {A = ℕ} (replicate n 0) i 0 ≡ 0
get_or-zeros zero i = refl
get_or-zeros (suc n) zero = refl
get_or-zeros (suc n) (suc i) = get_or-zeros n i

init-Counts : Counts [] latency_histogram_init
unfolding latency_histogram_init samples_in sum largest
init-Counts = record {
  width = refl;
  number = refl;
  room = refl;
  each = λ i. get_or-zeros 64 i;
  total = refl;
  added = refl;
  greatest = refl;
}

bucket_of-lem :
    (xs : List ℕ) (h : LatencyHistogram) (x : ℕ)
    → Counts xs h
    → (bucket_of h x ≡ bucket_index x) × (bucket_index x < 64)
unfolding bucket_of bucket_index
bucket_of-lem xs h x c = rw (c.width, c.number) (ground arith)

add-Counts :
    (xs : List ℕ) (h : LatencyHistogram) (x : ℕ)
    → Counts xs h
    → Counts (x ∷ xs) (latency_histogram_add x h)
unfolding latency_histogram_add samples_in sum largest
add-Counts xs h x c =
    let (placed, below) = bucket_of-lem xs h x c in
    record {
      width = c.width;
      number = c.number;
      room = length-set h.buckets (bucket_of h x) _ ∙ c.room;
      each = λ i. ground (
        arith,
        c.each i,
        c.each (bucket_index x),
        get_or-set h.buckets (bucket_of h x) i (u64 (get_or h.buckets (bucket_of h x) 0 + 1)),
      );
      total = omega (arith, c.total);
      added = omega (arith, c.added);
      greatest = ground (arith, c.greatest);
    }

-- A histogram counts its samples, in 64 bits: each bucket has the number of the samples that belong
-- to it, the total is their number, `sum_ns` their sum, and `max_ns` the greatest of them.
pub add_all-Counts : (xs : List ℕ) → Counts xs (add_all xs)
unfolding add_all
add_all-Counts [] = init-Counts
add_all-Counts (x ∷ xs) = add-Counts xs (add_all xs) x (add_all-Counts xs)

-- A sample of 0 ns is forgotten as the minimum: after it, the next sample becomes the minimum,
-- whatever came before.
pub min_forgotten :
    (xs : List ℕ) (x : ℕ)
    → (latency_histogram_add x (latency_histogram_add 0 (add_all xs))).min_ns ≡ x
unfolding latency_histogram_add
min_forgotten xs x = ground arith
