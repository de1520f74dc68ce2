-- ===== src/Tests/Statistics.antt =====
-- Statistics over three samples and a few calls.
use nomalloc.Prelude.{ℕ, ◌*◌, ◌/◌, ◌≤◌, ◌≡◌, refl, false, List, [], ◌∷◌, ◌++◌, some, length, arith}
use nomalloc.Stats.Histogram.{latency_histogram_get_p50, latency_histogram_get_p99}
use nomalloc.Stats.Types.{StatsHistoryEntry, StatsCollector}
use nomalloc.Stats.Ops.{new_collector, stats_collector_init}
use nomalloc.Stats.Reads.{new_history_entry, stats_collector_update_history}
use nomalloc.Stats.Samples.{Counts, add_all, add_all-Counts}
use nomalloc.Stats.Percentiles.{IsFirstBucket, percentiles_lem}
use nomalloc.Stats.History.{last_of, update_history_log}
use nomalloc.Stats.Counters.{IsCounted}
use nomalloc.Stats.Calls.{StatsCall, perform_all, perform_all-IsCounted}

abbrev samples : List ℕ
samples = 40 ∷ 3 ∷ 1200 ∷ []

add_all-Counts_example : Counts samples (add_all samples)
add_all-Counts_example = add_all-Counts samples

percentiles_lem_example :
    (j : ℕ) × (k : ℕ) × (latency_histogram_get_p50 (add_all samples) ≡ j * 16)
    × (latency_histogram_get_p99 (add_all samples) ≡ k * 16)
    × IsFirstBucket samples (length samples / 2) j
    × IsFirstBucket samples (length samples * 99 / 100) k
    × (j ≤ k)
percentiles_lem_example = percentiles_lem samples (omega arith) (omega arith)

abbrev entry : StatsHistoryEntry
entry = record { timestamp = 5; total_allocated = 64; total_freed = 16; active_allocations = 48 }

-- A full history of one entry.
abbrev full : StatsCollector
full = record (new_collector 1 2) { history = record { entries = entry ∷ []; capacity = 1 } }

update_history_log_example :
    (s' : StatsCollector) × (stats_collector_update_history 9 10 full ≡ some s')
    × (s'.history.entries
        ≡ last_of full.history.capacity ((entry ∷ []) ++ (new_history_entry 9 full ∷ [])))
    × (s'.history.capacity ≡ full.history.capacity)
unfolding last_of
update_history_log_example = update_history_log (entry ∷ []) 9 10 full (omega arith) refl

abbrev calls : List StatsCall
calls =
    StatsCall.record_alloc 64 7 0 40
    ∷ StatsCall.record_dealloc 64 7 0 12
    ∷ StatsCall.update_history 9 10
    ∷ []

abbrev off : StatsCollector
off = record (new_collector 0 0) { initialized = false }

perform_all-IsCounted_example :
    (s' : StatsCollector) × (perform_all calls (stats_collector_init 3 4 off) ≡ some s')
    × IsCounted s'
perform_all-IsCounted_example = perform_all-IsCounted 3 4 calls off refl
