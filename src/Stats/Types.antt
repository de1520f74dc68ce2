-- ===== src/Stats/Types.antt =====
-- The state of src/debug/stats_collector.h. Rates, which are `double` values, are left out.
use nomalloc.Prelude.{ℕ, Bool, List}
use nomalloc.Stats.Histogram.{LatencyHistogram}

pub record SizeClassStats : Type 0 where
  pub allocations : ℕ
  pub deallocations : ℕ
  pub allocated_bytes : ℕ
  pub freed_bytes : ℕ
  pub alloc_latency : LatencyHistogram
  pub free_latency : LatencyHistogram
  pub peak_objects : ℕ
  pub peak_bytes : ℕ

pub record ArenaStats : Type 0 where
  pub allocations : ℕ
  pub deallocations : ℕ
  pub allocated_bytes : ℕ
  pub freed_bytes : ℕ
  pub chunks : ℕ
  pub runs : ℕ
  pub tcache_hits : ℕ
  pub tcache_misses : ℕ
  pub alloc_latency : LatencyHistogram

pub record ThreadStats : Type 0 where
  pub allocations : ℕ
  pub deallocations : ℕ
  pub allocated_bytes : ℕ
  pub freed_bytes : ℕ
  pub local_cache_hits : ℕ
  pub local_cache_misses : ℕ
  pub last_alloc_size : ℕ
  pub thread_id : ℕ

pub record GlobalStats : Type 0 where
  pub total_allocations : ℕ
  pub total_deallocations : ℕ
  pub total_allocated_bytes : ℕ
  pub total_freed_bytes : ℕ
  pub total_tcache_hits : ℕ
  pub total_tcache_misses : ℕ
  pub total_gc_collections : ℕ
  pub total_gc_time_ns : ℕ
  pub global_alloc_latency : LatencyHistogram
  pub global_free_latency : LatencyHistogram
  pub start_time_ns : ℕ
  pub last_update_ns : ℕ

pub record StatsHistoryEntry : Type 0 where
  pub timestamp : ℕ
  pub total_allocated : ℕ
  pub total_freed : ℕ
  pub active_allocations : ℕ

-- `entries` has the first `count` entries of the array.
pub record StatsHistory : Type 0 where
  pub entries : List StatsHistoryEntry
  pub capacity : ℕ

pub record StatsCollector : Type 0 where
  pub enabled : Bool
  pub initialized : Bool
  pub global : GlobalStats
  pub size_classes : List SizeClassStats
  pub arenas : List ArenaStats
  pub threads : List ThreadStats
  pub history : StatsHistory
  pub update_interval_ns : ℕ
  pub auto_update : Bool

abbrev pub stats_max_history_entries : ℕ
stats_max_history_entries = 10000

-- `NOMALLOC_NUM_SIZE_CLASSES_TOTAL`, `NOMALLOC_MAX_ARENAS` and `NOMALLOC_MAX_THREADS`.
abbrev pub stats_per_class_entries : ℕ
stats_per_class_entries = 47

abbrev pub stats_per_arena_entries : ℕ
stats_per_arena_entries = 64

abbrev pub stats_per_thread_entries : ℕ
stats_per_thread_entries = 1024
