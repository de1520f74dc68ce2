-- ===== src/Stats/Histogram.antt =====
-- The histograms of src/debug/stats_collector.h.
use nomalloc.Prelude.{
  ℕ, ◌+◌, ◌-◌, ◌*◌, ◌/◌, ◌||◌, List, [], ◌∷◌, ltb, leb, ◌==◌, if◌then◌else◌, u64, get_or, set,
  replicate,
}

pub record LatencyHistogram : Type 0 where
  pub buckets : List ℕ
  pub bucket_size : ℕ
  pub max_buckets : ℕ
  pub total_samples : ℕ
  pub sum_ns : ℕ
  pub min_ns : ℕ
  pub max_ns : ℕ

abbrev pub stats_latency_bucket_size : ℕ
stats_latency_bucket_size = 16

abbrev pub stats_latency_max_buckets : ℕ
stats_latency_max_buckets = 64

unfoldable pub latency_histogram_init : LatencyHistogram
latency_histogram_init = record {
  buckets = replicate stats_latency_max_buckets 0;
  bucket_size = stats_latency_bucket_size;
  max_buckets = stats_latency_max_buckets;
  total_samples = 0;
  sum_ns = 0;
  min_ns = 0;
  max_ns = 0;
}

unfoldable pub bucket_of : LatencyHistogram → ℕ → ℕ
bucket_of h value =
    if leb h.max_buckets (value / h.bucket_size) then h.max_buckets - 1 else value / h.bucket_size

unfoldable pub latency_histogram_add : ℕ → LatencyHistogram → LatencyHistogram
unfolding bucket_of
latency_histogram_add value h = record h {
  buckets = set h.buckets (bucket_of h value) (u64 (get_or h.buckets (bucket_of h value) 0 + 1));
  total_samples = u64 (h.total_samples + 1);
  sum_ns = u64 (h.sum_ns + value);
  min_ns = if ltb value h.min_ns || h.min_ns == 0 then value else h.min_ns;
  max_ns = if ltb h.max_ns value then value else h.max_ns;
}

unfoldable pub latency_histogram_get_avg : LatencyHistogram → ℕ
latency_histogram_get_avg h = if h.total_samples == 0 then 0 else h.sum_ns / h.total_samples

-- The loop of the percentiles from bucket `i`, with what it returns at the end of the buckets.
unfoldable pub percentile_loop : List ℕ → ℕ → ℕ → ℕ → ℕ → ℕ → ℕ
percentile_loop [] i bucket_size target cumulative last = last
percentile_loop (b ∷ bs) i bucket_size target cumulative last =
    let rest = percentile_loop bs (i + 1) bucket_size target (u64 (cumulative + b)) last in
    if leb target (u64 (cumulative + b)) then u64 (i * bucket_size) else rest

unfoldable pub latency_histogram_get_p50 : LatencyHistogram → ℕ
unfolding percentile_loop
latency_histogram_get_p50 h =
    if h.total_samples == 0
    then 0
    else percentile_loop h.buckets 0 h.bucket_size (h.total_samples / 2) 0 h.max_ns

unfoldable pub latency_histogram_get_p99 : LatencyHistogram → ℕ
unfolding percentile_loop
latency_histogram_get_p99 h =
    if h.total_samples == 0
    then 0
    else percentile_loop h.buckets 0 h.bucket_size (u64 (h.total_samples * 99) / 100) 0 h.max_ns
