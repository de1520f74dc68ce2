-- ===== src/Tests/Collectors.antt =====
-- Collections over one region, and the settings.
use nomalloc.Prelude.{
  ℕ, zero, suc, ◌≡◌, refl, sym, ap, ◌∙◌, ◌+◌, false, arith, [], ◌∷◌, Option, some, none, u64,
}
use nomalloc.Collector.Doubles.{double_lt, double_le, double_six_tenths, double_eight_tenths}
use nomalloc.Collector.Settings.{gc_set_watermark}
use nomalloc.GcRegion.Types.{old, Region}
use nomalloc.Collector.State.{Gc, success, initial, state_idle, phase_idle}
use nomalloc.Collector.Configured.{
  IsConfigured, perform_all, set_threshold, set_watermark, perform_all-IsConfigured,
}
use nomalloc.Collector.Collect.{Clock, gc_collect, gc_collect_young}
use nomalloc.Collector.Cycles.{gc_collect_marks, gc_collect_fault}
use nomalloc.Collector.Sweep.{IsHeap, mark_in_use}
use nomalloc.Collector.Promotion.{gc_collect_young_fault}
use nomalloc.Tests.Managers.{young_region, one_region, only_region, one_region-IsLedger}

abbrev clock : Clock
clock = record { start = 10; reclaim_start = 20; reclaim_end = 30; stop = 40 }

-- A collector over one region.
abbrev over : Region → Gc
over r = record (initial (λ x. 0)) { manager = one_region r }

-- A region of the default size at 16 MiB.
abbrev far_region : Region
far_region = record young_region {
  kind = old;
  base_addr = 16777216;
  size = 2097152;
  bitmap_size = 262144;
}

id_or_zero : Option Region → ℕ
id_or_zero none = 0
id_or_zero (some r) = r.id

only_named : (r : Region) → r.id ≡ 0 → (i : ℕ) (r' : Region) → only_region r i ≡ some r' → r'.id ≡ i
unfolding id_or_zero
only_named r e zero r' here = sym (ap id_or_zero here) ∙ e
only_named r e (suc i) r' here = absurd (ground arith)

one_region-IsHeap : (r : Region) → r.id ≡ 0 → IsHeap (one_region r)
one_region-IsHeap r e = record { ledger = one_region-IsLedger r; named = only_named r e }

gc_collect_marks_example :
    (g' : Gc) × (gc_collect clock (over young_region) ≡ some (success, g'))
    × (g'.manager
        ≡ record (one_region young_region) { regions = mark_in_use (only_region young_region) })
    × (g'.stats.young_gc_count ≡ u64 (0 + 1))
    × (g'.stats.bytes_freed ≡ u64 0)
    × (g'.current_epoch ≡ u64 (0 + 1))
    × (g'.state ≡ state_idle)
    × (g'.phase ≡ phase_idle)
    × (g'.concurrent_active ≡ false)
gc_collect_marks_example =
    gc_collect_marks clock (over young_region) (one_region-IsHeap young_region refl) (omega arith)
      refl refl refl

gc_collect_fault_example : gc_collect clock (over far_region) ≡ none
gc_collect_fault_example =
    gc_collect_fault clock (over far_region) far_region (one_region-IsHeap far_region refl)
      (omega arith) refl refl refl refl refl (omega arith)

gc_collect_young_fault_example : gc_collect_young clock (over young_region) ≡ none
gc_collect_young_fault_example =
    gc_collect_young_fault clock (over young_region) young_region []
      (one_region-IsHeap young_region refl) refl refl refl refl (omega arith) (omega arith)

perform_all-IsConfigured_example : IsConfigured (
    perform_all
      (set_threshold 4096 ∷ set_watermark double_eight_tenths double_six_tenths ∷ [])
      (initial (λ x. 0)))
perform_all-IsConfigured_example =
    perform_all-IsConfigured
      (set_threshold 4096 ∷ set_watermark double_eight_tenths double_six_tenths ∷ []) (λ x. 0)

-- The patterns of -5.0 and of a NaN.
watermark_not_a_number :
    (gc_set_watermark 13840687554816376832 9221120237041090560 (initial (λ x. 0))).0 ≡ success
unfolding gc_set_watermark double_le double_lt
watermark_not_a_number = refl
