-- ===== src/Allocator/Init.antt =====
-- `allocator_init`, the entry check that the operations share, and `allocator_configure`.
use nomalloc.Prelude.{
  ℕ, ◌*◌, Bool, true, false, Option, none, some, leb, ltb, ◌&&◌, if◌then◌else◌, ◌≡◌, arith,
}
use nomalloc.Libc.{Libc}
use nomalloc.Arena.{arena_manager_init, arena_manager_shutdown, arena_create}
use nomalloc.Collector.Doubles.{
  double_lt, double_le, double_zero, double_one, double_hundredth, double_six_tenths,
  double_eight_tenths,
}
use nomalloc.Allocator.State.{Config, Allocator}

-- The result of a function that returns 0 or -1.
pub data Status : Type 0 where
  success failure : Status

abbrev pub log_level_info : ℕ
log_level_info = 3

abbrev pub default_config : Config
default_config = record {
  region_size = 2 * 1024 * 1024;
  tcache_max_size = 1024 * 1024;
  gc_threshold = 1024 * 1024 * 1024;
  gc_watermark_high = double_eight_tenths;
  gc_watermark_low = double_six_tenths;
  numa_aware = true;
  huge_pages = false;
  log_level = some log_level_info;
  leak_detection_enabled = false;
  stats_enabled = true;
  profiler_enabled = false;
  profiler_sample_rate = double_hundredth;
}

-- What the allocator takes from its platform besides the C library's heap: `sizeof(struct arena)`
-- and whether `pthread_key_create` succeeds.
pub record Platform : Type 0 where
  pub arena_bytes : ℕ
  pub key_created : Bool

module _ (L : Libc) (env : Platform) where
  -- The initialisation proper, past the two early returns; `s` is the state before it.
  unfoldable pub run_init : Allocator L.Heap → Allocator L.Heap × Status
  run_init s =
      let o = arena_create L env.arena_bytes 0 arena_manager_init s.heap s.memory in
      let cleared = record s {
        initialized = true;
        initializing = false;
        config = default_config;
        total_allocated = 0;
        total_freed = 0;
        arenas = o.manager;
        heap = o.heap;
        memory = o.memory;
      } in
      let closed = arena_manager_shutdown L o.manager o.heap o.memory in
      let failed = record cleared {
        initialized = false;
        arenas = closed.manager;
        heap = closed.heap;
        memory = closed.memory;
      } in
      elim o.arena [
        | none ↦ (failed, failure)
        | some _ ↦ if env.key_created then (cleared, success) else (failed, failure)
      ]

  unfoldable pub allocator_init : Allocator L.Heap → Allocator L.Heap × Status
  allocator_init s =
      if s.initialized then (s, success) else if s.initializing then (s, failure) else run_init s

-- How an operation goes on after its check of the two flags: with the allocator, with the C
-- library because an initialisation is running, or not at all.
pub data Entry : Type 0 where
  ready fallback refused : Entry

abbrev pub entry_of : Status → Entry
entry_of success = ready
entry_of failure = refused

module _ (L : Libc) (env : Platform) where
  unfoldable pub enter : Allocator L.Heap → Allocator L.Heap × Entry
  enter s =
      if s.initialized
      then (s, ready)
      else if s.initializing
      then (s, fallback)
      else let (s', status) = allocator_init L env s in (s', entry_of status)

  pub enter_ready : (s : Allocator L.Heap) → s.initialized ≡ true → enter s ≡ (s, ready)
  unfolding enter
  enter_ready s up = ground arith

unfoldable pub is_log_level : Option ℕ → Bool
is_log_level none = false
is_log_level (some level) = leb level 5

-- `allocator_configure`; `none` is the NULL configuration.
unfoldable pub allocator_configure :
    {Heap : Type 0} → Option Config → Allocator Heap → Allocator Heap × Status
unfolding is_log_level
allocator_configure none s = (s, failure)
allocator_configure (some c) s =
    let old = s.config in
    let marks = double_lt c.gc_watermark_low c.gc_watermark_high in
    (
      record s {
        config = record {
          region_size =
              if leb 4096 c.region_size && leb c.region_size (256 * 1024 * 1024)
              then c.region_size
              else old.region_size;
          tcache_max_size =
              if leb (64 * 1024) c.tcache_max_size then c.tcache_max_size else old.tcache_max_size;
          gc_threshold = if ltb 0 c.gc_threshold then c.gc_threshold else old.gc_threshold;
          gc_watermark_high = if marks then c.gc_watermark_high else old.gc_watermark_high;
          gc_watermark_low = if marks then c.gc_watermark_low else old.gc_watermark_low;
          numa_aware = c.numa_aware;
          huge_pages = c.huge_pages;
          log_level = if is_log_level c.log_level then c.log_level else old.log_level;
          leak_detection_enabled = c.leak_detection_enabled;
          stats_enabled = c.stats_enabled;
          profiler_enabled = c.profiler_enabled;
          profiler_sample_rate =
              if double_le double_zero c.profiler_sample_rate
                && double_le c.profiler_sample_rate double_one
              then c.profiler_sample_rate
              else old.profiler_sample_rate;
        };
      },
      success,
    )
