-- ===== src/Stats/Ops.antt =====
-- The calls of src/debug/stats_collector.c.
use nomalloc.Prelude.{
  ℕ, zero, suc, ◌+◌, Bool, true, false, ◌&&◌, List, [], ◌∷◌, ltb, if◌then◌else◌, u64, sub64,
  replicate,
}
use nomalloc.Stats.Histogram.{latency_histogram_init, latency_histogram_add}
use nomalloc.Stats.Types.{
  SizeClassStats, ArenaStats, ThreadStats, GlobalStats, StatsCollector, stats_max_history_entries,
  stats_per_class_entries, stats_per_arena_entries, stats_per_thread_entries,
}

unfoldable pub size_class_stats_init : SizeClassStats
unfolding latency_histogram_init
size_class_stats_init = record {
  allocations = 0;
  deallocations = 0;
  allocated_bytes = 0;
  freed_bytes = 0;
  alloc_latency = latency_histogram_init;
  free_latency = latency_histogram_init;
  peak_objects = 0;
  peak_bytes = 0;
}

unfoldable pub arena_stats_init : ArenaStats
unfolding latency_histogram_init
arena_stats_init = record {
  allocations = 0;
  deallocations = 0;
  allocated_bytes = 0;
  freed_bytes = 0;
  chunks = 0;
  runs = 0;
  tcache_hits = 0;
  tcache_misses = 0;
  alloc_latency = latency_histogram_init;
}

unfoldable pub thread_stats_init : ℕ → ThreadStats
thread_stats_init thread_id = record {
  allocations = 0;
  deallocations = 0;
  allocated_bytes = 0;
  freed_bytes = 0;
  local_cache_hits = 0;
  local_cache_misses = 0;
  last_alloc_size = 0;
  thread_id = thread_id;
}

-- The clock is read twice.
unfoldable pub global_stats_init : ℕ → ℕ → GlobalStats
unfolding latency_histogram_init
global_stats_init start update = record {
  total_allocations = 0;
  total_deallocations = 0;
  total_allocated_bytes = 0;
  total_freed_bytes = 0;
  total_tcache_hits = 0;
  total_tcache_misses = 0;
  total_gc_collections = 0;
  total_gc_time_ns = 0;
  global_alloc_latency = latency_histogram_init;
  global_free_latency = latency_histogram_init;
  start_time_ns = start;
  last_update_ns = update;
}

unfoldable pub new_collector : ℕ → ℕ → StatsCollector
unfolding global_stats_init size_class_stats_init arena_stats_init thread_stats_init
new_collector start update = record {
  enabled = true;
  initialized = true;
  global = global_stats_init start update;
  size_classes = replicate stats_per_class_entries size_class_stats_init;
  arenas = replicate stats_per_arena_entries arena_stats_init;
  threads = replicate stats_per_thread_entries (thread_stats_init 0);
  history = record { entries = []; capacity = stats_max_history_entries };
  update_interval_ns = 1000000000;
  auto_update = true;
}

-- It always returns 0.
unfoldable pub stats_collector_init : ℕ → ℕ → StatsCollector → StatsCollector
unfolding new_collector
stats_collector_init start update s = if s.initialized then s else new_collector start update

unfoldable pub stats_collector_shutdown : StatsCollector → StatsCollector
stats_collector_shutdown s =
    if s.initialized then record s { enabled = false; initialized = false } else s

unfoldable pub stats_collector_enable : ℕ → ℕ → StatsCollector → StatsCollector
unfolding stats_collector_init
stats_collector_enable start update s =
    if s.initialized then record s { enabled = true } else stats_collector_init start update s

-- `true` stands for 0 and `false` for -1.
unfoldable pub stats_collector_disable : StatsCollector → StatsCollector × Bool
stats_collector_disable s =
    if s.initialized then (record s { enabled = false }, true) else (s, false)

unfoldable pub update_at {ℓ} : {A : Type ℓ} → (A → A) → List A → ℕ → List A
update_at f [] i = []
update_at f (x ∷ xs) zero = f x ∷ xs
update_at f (x ∷ xs) (suc i) = x ∷ update_at f xs i

unfoldable pub class_alloc : ℕ → ℕ → SizeClassStats → SizeClassStats
unfolding latency_histogram_add
class_alloc size latency_ns c =
    let allocations = u64 (c.allocations + 1) in
    let active = sub64 allocations c.deallocations in
    record c {
      allocations = allocations;
      allocated_bytes = u64 (c.allocated_bytes + size);
      alloc_latency = latency_histogram_add latency_ns c.alloc_latency;
      peak_objects = if ltb c.peak_objects active then active else c.peak_objects;
    }

unfoldable pub arena_alloc : ℕ → ℕ → ArenaStats → ArenaStats
unfolding latency_histogram_add
arena_alloc size latency_ns a = record a {
  allocations = u64 (a.allocations + 1);
  allocated_bytes = u64 (a.allocated_bytes + size);
  alloc_latency = latency_histogram_add latency_ns a.alloc_latency;
}

unfoldable pub global_alloc : ℕ → ℕ → GlobalStats → GlobalStats
unfolding latency_histogram_add
global_alloc size latency_ns g = record g {
  total_allocations = u64 (g.total_allocations + 1);
  total_allocated_bytes = u64 (g.total_allocated_bytes + size);
  global_alloc_latency = latency_histogram_add latency_ns g.global_alloc_latency;
}

-- `arena_id` is the bit pattern of an `int`: it is negative from 2^31 on. The thread is not used.
abbrev pub is_arena : ℕ → Bool
is_arena arena_id = ltb arena_id 2147483648 && ltb arena_id stats_per_arena_entries

unfoldable pub stats_collector_record_alloc : ℕ → ℕ → ℕ → ℕ → StatsCollector → StatsCollector
unfolding global_alloc class_alloc arena_alloc update_at
stats_collector_record_alloc size class_idx arena_id latency_ns s =
    if s.enabled
    then record s {
      global = global_alloc size latency_ns s.global;
      size_classes =
          if ltb class_idx stats_per_class_entries
          then update_at (class_alloc size latency_ns) s.size_classes class_idx
          else s.size_classes;
      arenas =
          if is_arena arena_id
          then update_at (arena_alloc size latency_ns) s.arenas arena_id
          else s.arenas;
    }
    else s

unfoldable pub class_dealloc : ℕ → ℕ → SizeClassStats → SizeClassStats
unfolding latency_histogram_add
class_dealloc size latency_ns c = record c {
  deallocations = u64 (c.deallocations + 1);
  freed_bytes = u64 (c.freed_bytes + size);
  free_latency = latency_histogram_add latency_ns c.free_latency;
}

unfoldable pub arena_dealloc : ℕ → ArenaStats → ArenaStats
arena_dealloc size a = record a {
  deallocations = u64 (a.deallocations + 1);
  freed_bytes = u64 (a.freed_bytes + size);
}

unfoldable pub global_dealloc : ℕ → ℕ → GlobalStats → GlobalStats
unfolding latency_histogram_add
global_dealloc size latency_ns g = record g {
  total_deallocations = u64 (g.total_deallocations + 1);
  total_freed_bytes = u64 (g.total_freed_bytes + size);
  global_free_latency = latency_histogram_add latency_ns g.global_free_latency;
}

unfoldable pub stats_collector_record_dealloc : ℕ → ℕ → ℕ → ℕ → StatsCollector → StatsCollector
unfolding global_dealloc class_dealloc arena_dealloc update_at
stats_collector_record_dealloc size class_idx arena_id latency_ns s =
    if s.enabled
    then record s {
      global = global_dealloc size latency_ns s.global;
      size_classes =
          if ltb class_idx stats_per_class_entries
          then update_at (class_dealloc size latency_ns) s.size_classes class_idx
          else s.size_classes;
      arenas =
          if is_arena arena_id then update_at (arena_dealloc size) s.arenas arena_id else s.arenas;
    }
    else s
