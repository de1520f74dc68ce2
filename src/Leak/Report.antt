-- ===== src/Leak/Report.antt =====
-- The counts and the report of src/debug/leak_detector.c.
use nomalloc.Prelude.{
  ℕ, ◌+◌, Bool, true, false, ◌&&◌, List, [], ◌∷◌, Option, none, some, leb, ◌==◌, if◌then◌else◌, u64,
  sub64, length,
}
use nomalloc.Leak.{AllocationRecord, LeakDetector, leak_detector_report_size}

-- The loop of `leak_detector_update_stats`.
unfoldable pub sum_sizes : List ℕ → (ℕ → Option AllocationRecord) → ℕ → Option ℕ
sum_sizes [] at bytes = some bytes
sum_sizes (id ∷ ids) at bytes = elim (at id) [
  | none ↦ none
  | some r ↦ sum_sizes ids at (u64 (bytes + r.size))
]

unfoldable pub leak_detector_update_stats : LeakDetector → Option LeakDetector
unfolding sum_sizes
leak_detector_update_stats s =
    if s.linked
    then elim (sum_sizes s.allocation_list s.record_at 0) [
      | none ↦ none
      | some bytes ↦ some (record s {
        stats = record (s.stats) { leaked_allocations = s.num_records; leaked_bytes = bytes };
      })
    ]
    else none

pub record LeakStats : Type 0 where
  pub leaked_objects : ℕ
  pub leaked_bytes : ℕ
  pub total_allocated : ℕ
  pub total_freed : ℕ
  pub active_allocations : ℕ

unfoldable pub leak_detector_get_stats : LeakDetector → Option (LeakDetector × LeakStats)
unfolding leak_detector_update_stats
leak_detector_get_stats s = elim (leak_detector_update_stats s) [
  | none ↦ none
  | some s' ↦ some (
    s',
    record {
      leaked_objects = s'.stats.leaked_allocations;
      leaked_bytes = s'.stats.leaked_bytes;
      total_allocated = s'.stats.total_allocations;
      total_freed = s'.stats.total_deallocations;
      active_allocations = sub64 s'.stats.total_allocations s'.stats.total_deallocations;
    },
  )
]

pub record LeakReportEntry : Type 0 where
  pub size : ℕ
  pub count : ℕ
  pub total_bytes : ℕ
  pub first_seen : ℕ
  pub last_seen : ℕ
  pub common_stack_trace : List ℕ

-- The length of `entries` is the field `num_entries`.
pub record LeakReport : Type 0 where
  pub entries : List LeakReportEntry
  pub total_leaked_bytes : ℕ
  pub total_leaked_objects : ℕ

-- The two depths and then the frames are compared.
unfoldable pub same_frames : List ℕ → List ℕ → Bool
same_frames [] [] = true
same_frames [] (y ∷ ys) = false
same_frames (x ∷ xs) [] = false
same_frames (x ∷ xs) (y ∷ ys) = x == y && same_frames xs ys

unfoldable pub new_entry : AllocationRecord → LeakReportEntry
new_entry r = record {
  size = r.size;
  count = 1;
  total_bytes = r.size;
  first_seen = r.timestamp;
  last_seen = r.timestamp;
  common_stack_trace = r.stack_trace;
}

unfoldable pub add_to_entry : AllocationRecord → LeakReportEntry → LeakReportEntry
add_to_entry r e = record e {
  count = u64 (e.count + 1);
  total_bytes = u64 (e.total_bytes + r.size);
  last_seen = r.timestamp;
}

-- The first entry of the same size and frames counts the record; without one there is a new entry.
unfoldable pub add_entry : AllocationRecord → List LeakReportEntry → List LeakReportEntry
unfolding new_entry add_to_entry same_frames
add_entry r [] = new_entry r ∷ []
add_entry r (e ∷ es) =
    if e.size == r.size && same_frames e.common_stack_trace r.stack_trace
    then add_to_entry r e ∷ es
    else e ∷ add_entry r es

unfoldable pub add_record : AllocationRecord → LeakReport → LeakReport
unfolding add_entry
add_record r report = record {
  entries = add_entry r report.entries;
  total_leaked_bytes = u64 (report.total_leaked_bytes + r.size);
  total_leaked_objects = u64 (report.total_leaked_objects + 1);
}

-- The loop of `generate_leak_report`.
unfoldable pub report_loop : List ℕ → (ℕ → Option AllocationRecord) → LeakReport → Option LeakReport
unfolding add_record
report_loop [] at report = some report
report_loop (id ∷ ids) at report =
    let rest : Option LeakReport = elim (at id) [
      | none ↦ none
      | some r ↦ report_loop ids at (add_record r report)
    ] in
    if leb leak_detector_report_size (length report.entries) then some report else rest

abbrev pub empty_report : LeakReport
empty_report = record { entries = []; total_leaked_bytes = 0; total_leaked_objects = 0 }

unfoldable pub generate_leak_report : LeakDetector → Option LeakReport
unfolding report_loop
generate_leak_report s =
    if s.linked then report_loop s.allocation_list s.record_at empty_report else none
