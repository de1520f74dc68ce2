-- ===== src/Leak.antt =====
-- The leak detector of src/debug/leak_detector.c and src/debug/leak_detector.h. A record stands at
-- its address; `allocation_list` and `free_list` list the records from their heads, and a bucket of
-- `hash_table` from its first record. `linked` tells whether the heads of the two lists have been
-- initialised: before, they are zero. `none` is a fault.
pub mod Ops
pub mod Report
pub mod Ledger
pub mod Tracking
pub mod Clearing
pub mod Calls
pub mod Totals
use nomalloc.Prelude.{ℕ, Bool, false, List, [], ◌∷◌, Option, none, ◌==◌, if◌then◌else◌, bit_and}
use nomalloc.Hash.{hash32_ptr}

-- `stack_trace` has the frames that `backtrace` wrote: its length is the field `stack_depth`.
pub record AllocationRecord : Type 0 where
  pub ptr : ℕ
  pub size : ℕ
  pub class_idx : ℕ
  pub arena_id : ℕ
  pub thread_id : ℕ
  pub timestamp : ℕ
  pub stack_trace : List ℕ

pub record LeakDetectorStats : Type 0 where
  pub total_allocations : ℕ
  pub total_deallocations : ℕ
  pub leaked_allocations : ℕ
  pub leaked_bytes : ℕ
  pub peak_allocations : ℕ
  pub peak_bytes : ℕ
  pub tracking_active : ℕ

pub record LeakDetector : Type 0 where
  pub enabled : Bool
  pub tracking : Bool
  pub records : ℕ
  pub num_records : ℕ
  pub max_records : ℕ
  pub hash_table : ℕ → List ℕ
  pub allocation_list : List ℕ
  pub free_list : List ℕ
  pub linked : Bool
  pub record_at : ℕ → Option AllocationRecord
  pub stats : LeakDetectorStats
  pub verbose : Bool

abbrev pub leak_detector_max_allocations : ℕ
leak_detector_max_allocations = 100000

abbrev pub leak_detector_hash_size : ℕ
leak_detector_hash_size = 8192

abbrev pub leak_detector_report_size : ℕ
leak_detector_report_size = 64

unfoldable pub leak_hash_index : ℕ → ℕ
leak_hash_index ptr = bit_and (hash32_ptr ptr) 8191

-- A list without the node: a node is in a list once.
unfoldable pub unlink : ℕ → List ℕ → List ℕ
unlink id [] = []
unlink id (x ∷ xs) = if x == id then unlink id xs else x ∷ unlink id xs

abbrev pub no_leak_stats : LeakDetectorStats
no_leak_stats = record {
  total_allocations = 0;
  total_deallocations = 0;
  leaked_allocations = 0;
  leaked_bytes = 0;
  peak_allocations = 0;
  peak_bytes = 0;
  tracking_active = 0;
}

-- All bytes zero, as before the first call.
abbrev pub zeroed : LeakDetector
zeroed = record {
  enabled = false;
  tracking = false;
  records = 0;
  num_records = 0;
  max_records = 0;
  hash_table = λ i. [];
  allocation_list = [];
  free_list = [];
  linked = false;
  record_at = λ a. none;
  stats = no_leak_stats;
  verbose = false;
}
