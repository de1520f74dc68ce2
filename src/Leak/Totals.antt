-- ===== src/Leak/Totals.antt =====
-- What the report of src/debug/leak_detector.c adds up to.
use nomalloc.Prelude.{
  ℕ, ◌+◌, ◌≤◌, ◌<◌, ◌≡◌, refl, sym, inl, inr, ◌∙◌, subst, false, List, [], ◌∷◌, Option, none, some,
  leb, u64, length, arith, Bool-cases, Option-cases,
}
use nomalloc.Leak.{AllocationRecord, LeakDetector, leak_detector_report_size}
use nomalloc.Leak.Report.{
  LeakReportEntry, LeakReport, sum_sizes, leak_detector_update_stats, add_entry, add_record,
  report_loop, empty_report, generate_leak_report,
}

unfoldable pub sum_counts : List LeakReportEntry → ℕ
sum_counts [] = 0
sum_counts (e ∷ es) = e.count + sum_counts es

unfoldable pub sum_bytes : List LeakReportEntry → ℕ
sum_bytes [] = 0
sum_bytes (e ∷ es) = e.total_bytes + sum_bytes es

sum_counts-add_entry :
    (r : AllocationRecord) (es : List LeakReportEntry)
    → u64 (sum_counts (add_entry r es)) ≡ u64 (sum_counts es + 1)
unfolding sum_counts add_entry
sum_counts-add_entry r [] = refl
sum_counts-add_entry r (e ∷ es) = ground (arith, sum_counts-add_entry r es)

sum_bytes-add_entry :
    (r : AllocationRecord) (es : List LeakReportEntry)
    → u64 (sum_bytes (add_entry r es)) ≡ u64 (sum_bytes es + r.size)
unfolding sum_bytes add_entry
sum_bytes-add_entry r [] = omega arith
sum_bytes-add_entry r (e ∷ es) = ground (arith, sum_bytes-add_entry r es)

length-add_entry :
    (r : AllocationRecord) (es : List LeakReportEntry)
    → (length es ≤ length (add_entry r es)) × (length (add_entry r es) ≤ length es + 1)
unfolding add_entry
length-add_entry r [] = ground arith
length-add_entry r (e ∷ es) = ground (arith, length-add_entry r es)

-- The entries add up to the totals, in 64 bits, and there is room for them.
pub record IsBalanced (report : LeakReport) : Type 0 where
  pub objects : u64 (sum_counts report.entries) ≡ report.total_leaked_objects
  pub bytes : u64 (sum_bytes report.entries) ≡ report.total_leaked_bytes
  pub room : length report.entries ≤ leak_detector_report_size

add_record-IsBalanced :
    (r : AllocationRecord) (report : LeakReport)
    → leb leak_detector_report_size (length report.entries) ≡ false
    → IsBalanced report
    → IsBalanced (add_record r report)
unfolding add_record
add_record-IsBalanced r report short b = record {
  objects = omega (arith, sum_counts-add_entry r report.entries, b.objects);
  bytes = omega (arith, sum_bytes-add_entry r report.entries, b.bytes);
  room =
      let below : length report.entries < leak_detector_report_size = ground arith in
      omega (arith, length-add_entry r report.entries);
}

abbrev pub Balanced : Option LeakReport → Type 0
Balanced none = Unit {0}
Balanced (some report) = IsBalanced report

report_loop-Balanced :
    (ids : List ℕ) (at : ℕ → Option AllocationRecord) (report : LeakReport)
    → IsBalanced report
    → Balanced (report_loop ids at report)
unfolding report_loop
report_loop-Balanced [] at report b = b
report_loop-Balanced (id ∷ ids) at report b =
    elim (Bool-cases (leb leak_detector_report_size (length report.entries))) [
      | inl full ↦ rw (report_loop, full) b
      | inr short ↦ elim (Option-cases (at id)) [
        | inl lost ↦ rw (report_loop, short, lost) tt
        | inr (r, found) ↦
            rw (report_loop, short, found)
              (report_loop-Balanced ids at (add_record r report)
                (add_record-IsBalanced r report short b))
      ]
    ]

-- Wherever it returns, the report has at most 64 entries, the counts of the entries add up to the
-- number of leaked objects, and their bytes to the leaked bytes, in 64 bits.
pub generate_leak_report-Balanced : (s : LeakDetector) → Balanced (generate_leak_report s)
unfolding generate_leak_report sum_counts sum_bytes
generate_leak_report-Balanced s = elim (Bool-cases s.linked) [
  | inl l ↦
      rw (generate_leak_report, l)
        (report_loop-Balanced s.allocation_list s.record_at empty_report
          (record { objects = refl; bytes = refl; room = omega arith }))
  | inr l ↦ rw (generate_leak_report, l) tt
]

report_loop_complete :
    (ids : List ℕ) (at : ℕ → Option AllocationRecord) (report report' : LeakReport)
    → report_loop ids at report ≡ some report'
    → length report'.entries < leak_detector_report_size
    → (u64 (report.total_leaked_objects + length ids) ≡ u64 report'.total_leaked_objects)
      × (sum_sizes ids at report.total_leaked_bytes ≡ some report'.total_leaked_bytes)
unfolding report_loop sum_sizes add_record
report_loop_complete [] at report report' made few = ground arith
report_loop_complete (id ∷ ids) at report report' made few =
    elim (Bool-cases (leb leak_detector_report_size (length report.entries))) [
      | inl full ↦ ground arith
      | inr short ↦ elim (Option-cases (at id)) [
        | inl lost ↦ ground arith
        | inr (r, found) ↦
            let step : report_loop (id ∷ ids) at report ≡ report_loop ids at (add_record r report) =
              rw (report_loop, short, found) refl in
            let added =
              report_loop_complete ids at (add_record r report) report' (sym step ∙ made) few in
            (omega (arith, added.0), rw (sum_sizes, found) (added.1))
      ]
    ]

-- A report with fewer than 64 entries is about every live record: it counts as many objects as the
-- list of allocations has records, in 64 bits, and `leak_detector_update_stats` arrives at the same
-- bytes.
pub generate_leak_report_complete :
    (s : LeakDetector) (report : LeakReport)
    → generate_leak_report s ≡ some report
    → length report.entries < leak_detector_report_size
    → (report.total_leaked_objects ≡ u64 (length s.allocation_list))
      × (leak_detector_update_stats s
          ≡ some (record s {
            stats = record (s.stats) {
              leaked_allocations = s.num_records;
              leaked_bytes = report.total_leaked_bytes;
            };
          }))
unfolding generate_leak_report leak_detector_update_stats
generate_leak_report_complete s report made few = elim (Bool-cases s.linked) [
  | inl l ↦
      let looped : report_loop s.allocation_list s.record_at empty_report ≡ some report =
        ground arith in
      let whole =
        report_loop_complete s.allocation_list s.record_at empty_report report looped few in
      let balanced : IsBalanced report = subst Balanced made (generate_leak_report-Balanced s) in
      (omega (arith, whole.0, balanced.objects), ground arith)
  | inr l ↦ ground arith
]
