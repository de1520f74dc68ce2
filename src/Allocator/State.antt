-- ===== src/Allocator/State.antt =====
-- The state of the allocator: `struct allocator` with its configuration, the flag of a running
-- initialisation, the arena manager, the heap of the C library and the memory. The fields for the thread caches,
-- the collector, the statistics, the leak detector, the profiler and the lock are left out: the
-- operations modelled here do not read them.
use nomalloc.Prelude.{ℕ, Bool, Option}
use nomalloc.Memory.{Memory}
use nomalloc.Arena.{ArenaManager}

-- `struct nomalloc_allocator_config`. The fields of type `double` hold its 64 bits, and `log_level`,
-- an `int`, is `none` where it is negative.
pub record Config : Type 0 where
  pub region_size : ℕ
  pub tcache_max_size : ℕ
  pub gc_threshold : ℕ
  pub gc_watermark_high : ℕ
  pub gc_watermark_low : ℕ
  pub numa_aware : Bool
  pub huge_pages : Bool
  pub log_level : Option ℕ
  pub leak_detection_enabled : Bool
  pub stats_enabled : Bool
  pub profiler_enabled : Bool
  pub profiler_sample_rate : ℕ

pub record Allocator (Heap : Type 0) : Type 0 where
  pub initialized : Bool
  pub initializing : Bool
  pub config : Config
  pub total_allocated : ℕ
  pub total_freed : ℕ
  pub arenas : ArenaManager
  pub heap : Heap
  pub memory : Memory
