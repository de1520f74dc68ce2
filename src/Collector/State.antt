-- ===== src/Collector/State.antt =====
-- The data of src/gc/gc_types.h and src/gc/gc.h, and `gc_init` of src/gc/gc.c.
use nomalloc.Prelude.{ℕ, zero, suc, ◌*◌, Bool, true, false, Option, none, some, ◌==◌, if◌then◌else◌}
use nomalloc.Memory.{Memory}
use nomalloc.GcRegion.Types.{
  RegionManager, gc_region_manager_init, gc_max_regions, gc_region_size_default,
}
use nomalloc.Collector.Doubles.{
  double_tenth, double_three_tenths, double_six_tenths, double_eight_tenths,
}

pub data GcPhase : Type 0 where
  phase_none mark_start mark_concurrent mark_final mixed_reclaim_start mixed_reclaim cleanup
        phase_idle :
      GcPhase

pub data GcState : Type 0 where
  state_idle young_gc mixed_gc full_gc marking compacting : GcState

-- The values of the enumerations.
unfoldable pub phase_code : GcPhase → ℕ
phase_code phase_none = 0
phase_code mark_start = 1
phase_code mark_concurrent = 2
phase_code mark_final = 3
phase_code mixed_reclaim_start = 4
phase_code mixed_reclaim = 5
phase_code cleanup = 6
phase_code phase_idle = 7

unfoldable pub state_code : GcState → ℕ
state_code state_idle = 0
state_code young_gc = 1
state_code mixed_gc = 2
state_code full_gc = 3
state_code marking = 4
state_code compacting = 5

-- What a call returns: 0, -1 or -2.
pub data GcResult : Type 0 where
  success failure busy : GcResult

pub record GcConfig : Type 0 where
  pub region_size : ℕ
  pub max_regions : ℕ
  pub young_gen_ratio : ℕ
  pub survivor_ratio : ℕ
  pub old_gen_ratio : ℕ
  pub pause_target_ms : ℕ
  pub pause_target_min_ms : ℕ
  pub pause_target_max_ms : ℕ
  pub concurrent_marking : Bool
  pub parallel_reclaim : Bool
  pub mixed_gc_enabled : Bool
  pub marking_threads : ℕ
  pub reclaim_threads : ℕ
  pub gc_watermark_high : ℕ
  pub gc_watermark_low : ℕ
  pub gc_threshold : ℕ

pub record GcStats : Type 0 where
  pub gc_count : ℕ
  pub young_gc_count : ℕ
  pub mixed_gc_count : ℕ
  pub full_gc_count : ℕ
  pub gc_time_ns : ℕ
  pub pause_time_ns : ℕ
  pub bytes_freed : ℕ
  pub regions_reclaimed : ℕ
  pub young_gen_size : ℕ
  pub old_gen_size : ℕ
  pub survivor_size : ℕ
  pub fragmentation_bytes : ℕ
  pub compaction_count : ℕ
  pub mark_time_ns : ℕ
  pub reclaim_time_ns : ℕ
  pub compact_time_ns : ℕ

-- `manager` is what `region_manager` points to; `marked_bytes` is that of the marking context.
pub record Gc : Type 0 where
  pub initialized : Bool
  pub config : GcConfig
  pub stats : GcStats
  pub active : Bool
  pub concurrent_active : Bool
  pub state : GcState
  pub phase : GcPhase
  pub manager : RegionManager
  pub marked_bytes : ℕ
  pub num_satb_buffers : ℕ
  pub current_epoch : ℕ
  pub threshold_bytes : ℕ
  pub young_gen_capacity : ℕ
  pub old_gen_capacity : ℕ
  pub survivor_capacity : ℕ
  pub watermark_high : ℕ
  pub watermark_low : ℕ
  pub pause_target_ms : ℕ

abbrev pub max_threads : ℕ
max_threads = 1024

abbrev pub gc_default_config : GcConfig
gc_default_config = record {
  region_size = gc_region_size_default;
  max_regions = gc_max_regions;
  young_gen_ratio = double_three_tenths;
  survivor_ratio = double_tenth;
  old_gen_ratio = double_six_tenths;
  pause_target_ms = 100;
  pause_target_min_ms = 10;
  pause_target_max_ms = 500;
  concurrent_marking = true;
  parallel_reclaim = true;
  mixed_gc_enabled = true;
  marking_threads = 2;
  reclaim_threads = 4;
  gc_watermark_high = double_eight_tenths;
  gc_watermark_low = double_six_tenths;
  gc_threshold = 100 * 1024 * 1024;
}

abbrev pub no_stats : GcStats
no_stats = record {
  gc_count = 0;
  young_gc_count = 0;
  mixed_gc_count = 0;
  full_gc_count = 0;
  gc_time_ns = 0;
  pause_time_ns = 0;
  bytes_freed = 0;
  regions_reclaimed = 0;
  young_gen_size = 0;
  old_gen_size = 0;
  survivor_size = 0;
  fragmentation_bytes = 0;
  compaction_count = 0;
  mark_time_ns = 0;
  reclaim_time_ns = 0;
  compact_time_ns = 0;
}

-- The three capacities are the products of 2^31, the size of all regions, with the ratios, cut to
-- a whole number.
abbrev pub initial : Memory → Gc
initial m = record {
  initialized = true;
  config = gc_default_config;
  stats = no_stats;
  active = true;
  concurrent_active = false;
  state = state_idle;
  phase = phase_idle;
  manager = gc_region_manager_init m;
  marked_bytes = 0;
  num_satb_buffers = max_threads;
  current_epoch = 0;
  threshold_bytes = 100 * 1024 * 1024;
  young_gen_capacity = 644245094;
  old_gen_capacity = 1288490188;
  survivor_capacity = 214748364;
  watermark_high = double_eight_tenths;
  watermark_low = double_six_tenths;
  pause_target_ms = 100;
}

-- The answers to the requests for the table of buffers and for each buffer; 0 is NULL, which is
-- written through.
unfoldable pub buffers_granted : ℕ → (ℕ → ℕ) → Bool
buffers_granted zero buffer = true
buffers_granted (suc n) buffer = if buffer n == 0 then false else buffers_granted n buffer

-- `none` is a fault.
unfoldable pub gc_init : ℕ → (ℕ → ℕ) → Memory → Gc → Option (GcResult × Gc)
gc_init table buffer m g =
    if g.initialized
    then some (success, g)
    else if table == 0
    then none
    else if buffers_granted max_threads buffer
    then some (success, initial m)
    else none
