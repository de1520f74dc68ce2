-- ===== src/Collector/Settings.antt =====
-- The settings, the statistics and the names of src/gc/gc.c.
use nomalloc.Prelude.{ℕ, ◌*◌, Bool, true, false, ◌||◌, ltb, ◌==◌, if◌then◌else◌}
use nomalloc.Collector.Doubles.{double_lt, double_le, double_zero, double_one}
use nomalloc.Collector.State.{GcResult, success, failure, GcStats, Gc}

unfoldable pub gc_enable : Gc → GcResult × Gc
gc_enable g = if g.initialized then (success, record g { active = true }) else (failure, g)

unfoldable pub gc_disable : Gc → GcResult × Gc
gc_disable g = if g.initialized then (success, record g { active = false }) else (failure, g)

unfoldable pub gc_set_threshold : ℕ → Gc → GcResult × Gc
gc_set_threshold threshold g = if threshold == 0 then (failure, g) else (
  success,
  record g { threshold_bytes = threshold; config = record (g.config) { gc_threshold = threshold } },
)

unfoldable pub gc_set_watermark : ℕ → ℕ → Gc → GcResult × Gc
gc_set_watermark high low g =
    if double_le high low || double_lt double_one high || double_lt low double_zero
    then (failure, g)
    else (
      success,
      record g {
        watermark_high = high;
        watermark_low = low;
        config = record (g.config) { gc_watermark_high = high; gc_watermark_low = low };
      },
    )

abbrev pub gc_region_size_min : ℕ
gc_region_size_min = 256 * 1024

abbrev pub gc_region_size_max : ℕ
gc_region_size_max = 32 * 1024 * 1024

unfoldable pub gc_set_region_size : ℕ → Gc → GcResult × Gc
gc_set_region_size size g =
    if ltb size gc_region_size_min || ltb gc_region_size_max size
    then (failure, g)
    else (success, record g { config = record (g.config) { region_size = size } })

unfoldable pub gc_set_pause_target : ℕ → Gc → GcResult × Gc
gc_set_pause_target target_ms g = if ltb target_ms 10 || ltb 500 target_ms then (failure, g) else (
  success,
  record g {
    pause_target_ms = target_ms;
    config = record (g.config) { pause_target_ms = target_ms };
  },
)

unfoldable pub gc_set_generation_threshold : ℕ → ℕ → Gc → GcResult × Gc
gc_set_generation_threshold generation threshold g =
    if ltb 2 generation || threshold == 0 then (failure, g) else (
      success,
      if generation == 0
          then record g { young_gen_capacity = threshold }
          else if generation == 1
          then record g { survivor_capacity = threshold }
          else record g { old_gen_capacity = threshold },
    )

unfoldable pub gc_set_mixed_gc_ratio : ℕ → Gc → GcResult × Gc
gc_set_mixed_gc_ratio ratio g =
    if double_lt ratio double_zero || double_lt double_one ratio then (failure, g) else (
      success,
      record g { config = record (g.config) { mixed_gc_enabled = double_lt double_zero ratio } },
    )

unfoldable pub gc_reset_stats : Gc → GcResult × Gc
gc_reset_stats g = (
  success,
  record g {
    stats = record (g.stats) {
      gc_count = 0;
      young_gc_count = 0;
      mixed_gc_count = 0;
      full_gc_count = 0;
      gc_time_ns = 0;
      pause_time_ns = 0;
      bytes_freed = 0;
      regions_reclaimed = 0;
    };
  },
)

-- The eleven counters that `gc_get_stats` copies into the caller's structure `stats`.
unfoldable pub gc_get_stats : Gc → GcStats → GcStats
gc_get_stats g stats = record stats {
  gc_count = g.stats.gc_count;
  young_gc_count = g.stats.young_gc_count;
  mixed_gc_count = g.stats.mixed_gc_count;
  full_gc_count = g.stats.full_gc_count;
  gc_time_ns = g.stats.gc_time_ns;
  pause_time_ns = g.stats.pause_time_ns;
  bytes_freed = g.stats.bytes_freed;
  regions_reclaimed = g.stats.regions_reclaimed;
  young_gen_size = g.stats.young_gen_size;
  old_gen_size = g.stats.old_gen_size;
  survivor_size = g.stats.survivor_size;
}

-- `ratio` is the quotient of two sizes as a `double`.
unfoldable pub gc_should_collect : (ℕ → ℕ → ℕ) → Gc → Bool
gc_should_collect ratio g =
    if g.manager.total_size == 0
    then false
    else double_le g.watermark_high (ratio g.manager.used_size g.manager.total_size)
