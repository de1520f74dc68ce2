-- ===== src/Tests/Leaks.antt =====
-- A leak detector with one allocation of 100 bytes at 4096.
use nomalloc.Prelude.{ℕ, ◌+◌, ◌≡◌, ◌⊎◌, refl, true, [], ◌∷◌, none, some, u64, length, arith}
use nomalloc.Leak.{AllocationRecord, LeakDetector, unlink, zeroed}
use nomalloc.Leak.Ops.{
  Caller, new_record, enter_record, take_record, leak_detector_init, leak_detector_enable,
  leak_detector_record_alloc, leak_detector_record_dealloc,
}
use nomalloc.Leak.Report.{LeakReport, new_entry, generate_leak_report, leak_detector_update_stats}
use nomalloc.Leak.Ledger.{count, IsLedger, enter_record-IsLedger}
use nomalloc.Leak.Tracking.{Tracks, record_dealloc_outcome, record_dealloc-record_alloc}
use nomalloc.Leak.Calls.{Step, Reach, Reach-IsLedger}
use nomalloc.Leak.Totals.{generate_leak_report_complete}

abbrev caller : Caller
caller = record { thread_id = 3; timestamp = 70; frames = 1111 ∷ 2222 ∷ [] }

-- A detector that tracks and has no record.
abbrev tracking : LeakDetector
tracking = record zeroed {
  enabled = true;
  tracking = true;
  records = 500;
  max_records = 100000;
  linked = true;
  stats = record (zeroed.stats) { tracking_active = 1 };
}

tracking-IsLedger : IsLedger tracking
unfolding count
tracking-IsLedger = record {
  linked = refl;
  once = λ id. omega arith;
  hashed = λ i id. omega arith;
  live = λ id inside. absurd (omega arith);
  counted = refl;
  room = omega arith;
  word = omega arith;
}

abbrev one_record : AllocationRecord
one_record = new_record caller 4096 100 7 0

-- The record stands at 800.
abbrev one_live : LeakDetector
one_live = enter_record 800 one_record tracking

one_live-IsLedger : IsLedger one_live
unfolding count
one_live-IsLedger =
    enter_record-IsLedger tracking tracking-IsLedger 800 one_record refl (omega arith) (omega arith)

record_dealloc-record_alloc_example :
    (s1 : LeakDetector) × (s2 : LeakDetector) × (leak_detector_record_alloc caller 900 8192 64 5 0
        one_live
      ≡ some s1)
    × (leak_detector_record_dealloc 8192 s1 ≡ some s2)
    × (s2.allocation_list ≡ one_live.allocation_list)
    × ((i : ℕ) → s2.hash_table i ≡ one_live.hash_table i)
    × (s2.num_records ≡ one_live.num_records)
    × (s2.stats.total_allocations ≡ u64 (one_live.stats.total_allocations + 1))
    × (s2.stats.total_deallocations ≡ u64 (one_live.stats.total_deallocations + 1))
unfolding count take_record enter_record
record_dealloc-record_alloc_example =
    record_dealloc-record_alloc caller 900 8192 64 5 0 one_live one_live-IsLedger refl refl
      (omega arith) refl (omega arith)

record_dealloc_outcome_example :
    ((id : ℕ) × (s' : LeakDetector) × Tracks one_live 4096 id
      × (leak_detector_record_dealloc 4096 one_live ≡ some s')
      × IsLedger s'
      × (s'.allocation_list ≡ unlink id one_live.allocation_list)
      × (s'.num_records + 1 ≡ one_live.num_records))
    ⊎ ((leak_detector_record_dealloc 4096 one_live ≡ none) × ((id : ℕ) → ¬ Tracks one_live 4096 id))
unfolding enter_record
record_dealloc_outcome_example =
    record_dealloc_outcome one_live 4096 one_live-IsLedger refl refl (omega arith)

-- Initialised without memory, then with it, turned on, and one allocation.
Reach-IsLedger_example : IsLedger one_live
unfolding count leak_detector_init leak_detector_enable leak_detector_record_alloc take_record
Reach-IsLedger_example =
    Reach-IsLedger {s = zeroed} refl
      (Reach.next
        (Reach.next
          (Reach.next (Reach.next Reach.here (Step.init 0 zeroed))
            (Step.init 500 ((leak_detector_init 0 zeroed).0)))
          (Step.enable 0 ((leak_detector_init 500 zeroed).0)))
        (Step.record_alloc caller 800 4096 100 7 0 tracking one_live refl refl))
      refl

abbrev one_leak : LeakReport
one_leak = record {
  entries = new_entry one_record ∷ [];
  total_leaked_bytes = 100;
  total_leaked_objects = 1;
}

one_leak_made : generate_leak_report one_live ≡ some one_leak
unfolding generate_leak_report enter_record
one_leak_made = refl

generate_leak_report_complete_example :
    (one_leak.total_leaked_objects ≡ u64 (length one_live.allocation_list))
    × (leak_detector_update_stats one_live
        ≡ some (record one_live {
          stats = record (one_live.stats) {
            leaked_allocations = one_live.num_records;
            leaked_bytes = one_leak.total_leaked_bytes;
          };
        }))
generate_leak_report_complete_example =
    generate_leak_report_complete one_live one_leak one_leak_made (omega arith)
