-- ===== src/Stats/Reads.antt =====
-- The remaining counters, the history and the readings of src/debug/stats_collector.c.
use nomalloc.Prelude.{
  ℕ, ◌+◌, ◌-◌, List, [], ◌∷◌, ◌++◌, Option, none, some, leb, ◌==◌, if◌then◌else◌, u64, sub64,
  length, take, drop, replicate, map,
}
use nomalloc.Stats.Histogram.{
  latency_histogram_get_avg, latency_histogram_get_p50, latency_histogram_get_p99,
}
use nomalloc.Stats.Types.{
  SizeClassStats, ArenaStats, StatsHistoryEntry, StatsHistory, StatsCollector,
  stats_per_class_entries, stats_per_arena_entries,
}
use nomalloc.Stats.Ops.{global_stats_init, size_class_stats_init, arena_stats_init}

unfoldable pub stats_collector_record_tcache_hit : StatsCollector → StatsCollector
stats_collector_record_tcache_hit s =
    if s.enabled
    then record s {
      global = record (s.global) { total_tcache_hits = u64 (s.global.total_tcache_hits + 1) };
    }
    else s

unfoldable pub stats_collector_record_tcache_miss : StatsCollector → StatsCollector
stats_collector_record_tcache_miss s =
    if s.enabled
    then record s {
      global = record (s.global) { total_tcache_misses = u64 (s.global.total_tcache_misses + 1) };
    }
    else s

-- The bytes that were freed are not used.
unfoldable pub stats_collector_record_gc : ℕ → StatsCollector → StatsCollector
stats_collector_record_gc time_ns s =
    if s.enabled
    then record s {
      global = record (s.global) {
        total_gc_collections = u64 (s.global.total_gc_collections + 1);
        total_gc_time_ns = u64 (s.global.total_gc_time_ns + time_ns);
      };
    }
    else s

unfoldable pub stats_collector_update_global : ℕ → StatsCollector → StatsCollector
stats_collector_update_global now s = record s {
  global = record (s.global) { last_update_ns = now };
}

-- At the end of the array its entries move down by one; without an array the loop that moves them
-- runs out of all bounds.
unfoldable pub shift_entries : StatsHistory → Option (List StatsHistoryEntry)
shift_entries h =
    if leb h.capacity (length h.entries)
    then if h.capacity == 0 then none else some (take (h.capacity - 1) (drop 1 h.entries))
    else some h.entries

abbrev pub new_history_entry : ℕ → StatsCollector → StatsHistoryEntry
new_history_entry timestamp s = record {
  timestamp = timestamp;
  total_allocated = s.global.total_allocated_bytes;
  total_freed = s.global.total_freed_bytes;
  active_allocations = sub64 s.global.total_allocated_bytes s.global.total_freed_bytes;
}

-- The clock is read for the entry, and again for the totals.
unfoldable pub stats_collector_update_history : ℕ → ℕ → StatsCollector → Option StatsCollector
unfolding shift_entries stats_collector_update_global
stats_collector_update_history timestamp now s = elim (shift_entries s.history) [
  | none ↦ none
  | some entries ↦ some (
      stats_collector_update_global now (record s {
        history = record (s.history) { entries = entries ++ (new_history_entry timestamp s ∷ []) };
      }))
]

pub record AllocatorStats : Type 0 where
  pub total_allocated : ℕ
  pub total_freed : ℕ
  pub active_allocations : ℕ
  pub tcache_hits : ℕ
  pub tcache_misses : ℕ
  pub alloc_ops : ℕ
  pub free_ops : ℕ
  pub alloc_latency_min : ℕ
  pub alloc_latency_max : ℕ
  pub alloc_latency_avg : ℕ
  pub alloc_latency_p50 : ℕ
  pub alloc_latency_p99 : ℕ
  pub gc_count : ℕ
  pub gc_time_ns : ℕ

unfoldable pub stats_collector_get_global : ℕ → StatsCollector → StatsCollector × AllocatorStats
unfolding stats_collector_update_global latency_histogram_get_avg latency_histogram_get_p50
    latency_histogram_get_p99
stats_collector_get_global now s =
    let g = s.global in
    let h = g.global_alloc_latency in
    (
      stats_collector_update_global now s,
      record {
        total_allocated = g.total_allocated_bytes;
        total_freed = g.total_freed_bytes;
        active_allocations = sub64 g.total_allocated_bytes g.total_freed_bytes;
        tcache_hits = g.total_tcache_hits;
        tcache_misses = g.total_tcache_misses;
        alloc_ops = g.total_allocations;
        free_ops = g.total_deallocations;
        alloc_latency_min = h.min_ns;
        alloc_latency_max = h.max_ns;
        alloc_latency_avg = latency_histogram_get_avg h;
        alloc_latency_p50 = latency_histogram_get_p50 h;
        alloc_latency_p99 = latency_histogram_get_p99 h;
        gc_count = g.total_gc_collections;
        gc_time_ns = g.total_gc_time_ns;
      },
    )

-- Allocated, freed and active bytes of each size class.
unfoldable pub stats_collector_get_per_class : StatsCollector → List (ℕ × ℕ × ℕ)
stats_collector_get_per_class s =
    map
      (λ (c : SizeClassStats).
        (c.allocated_bytes, c.freed_bytes, sub64 c.allocated_bytes c.freed_bytes))
      s.size_classes

-- Allocated and freed bytes and the number of chunks of each arena.
unfoldable pub stats_collector_get_per_arena : StatsCollector → List (ℕ × ℕ × ℕ)
stats_collector_get_per_arena s =
    map (λ (a : ArenaStats). (a.allocated_bytes, a.freed_bytes, a.chunks)) s.arenas

unfoldable pub stats_collector_get_active_allocations : StatsCollector → ℕ
stats_collector_get_active_allocations s =
    sub64 s.global.total_allocated_bytes s.global.total_freed_bytes

unfoldable pub stats_collector_reset : ℕ → ℕ → StatsCollector → StatsCollector
unfolding global_stats_init size_class_stats_init arena_stats_init
stats_collector_reset start update s = record s {
  global = global_stats_init start update;
  size_classes = replicate stats_per_class_entries size_class_stats_init;
  arenas = replicate stats_per_arena_entries arena_stats_init;
  history = record (s.history) { entries = [] };
}
