-- ===== src/Allocator/Start.antt =====
-- Starting the allocator, and its configuration.
use native.Mathlib.Decide.{ℕ_discrete}
use nomalloc.Prelude.{
  Bool-cases, ℕ, ◌*◌, ◌≤◌, ◌<◌, ◌≡◌, ◌≢◌, ◌⊎◌, inl, inr, refl, true, false, arith, some, none,
  get_or,
}
use nomalloc.Libc.{Libc}
use nomalloc.Arena.{arena_create, arena_manager_init, new_arena}
use nomalloc.Allocator.State.{Config, Allocator}
use nomalloc.Collector.Doubles.{double_lt, double_le, double_zero, double_one}
use nomalloc.Allocator.Init.{
  Platform, success, failure, run_init, allocator_init, is_log_level, allocator_configure,
  default_config,
}
use nomalloc.Allocator.Free.{IsRunning}

-- The allocator after a successful start: running, with the default configuration, both counters
-- at 0 and one arena, of identity 0.
pub record IsStarted {Heap : Type 0} (s : Allocator Heap) : Type 0 where
  pub running : IsRunning s
  pub configured : s.config ≡ default_config
  pub allocated : s.total_allocated ≡ 0
  pub freed : s.total_freed ≡ 0
  pub one_arena : s.arenas.num_arenas ≡ 1
  pub arena : (address : ℕ) × (get_or s.arenas.arenas 0 none ≡ some (new_arena address 0 0))

module _ (L : Libc) (env : Platform) where
  run_init_refused :
      (s : Allocator L.Heap)
      → (L.malloc env.arena_bytes s.heap s.memory).ptr ≡ 0
      → ((run_init L env s).1 ≡ failure)
        × ((run_init L env s).0.initialized ≡ false)
        × ((run_init L env s).0.initializing ≡ false)
  unfolding run_init arena_create arena_manager_init
  run_init_refused s null = ground arith

  run_init_no_key :
      (s : Allocator L.Heap)
      → env.key_created ≡ false
      → ((run_init L env s).1 ≡ failure)
        × ((run_init L env s).0.initialized ≡ false)
        × ((run_init L env s).0.initializing ≡ false)
  unfolding run_init arena_create arena_manager_init
  run_init_no_key s no_key = ground arith

  run_init-IsStarted :
      (s : Allocator L.Heap)
      → (L.malloc env.arena_bytes s.heap s.memory).ptr ≢ 0
      → env.key_created ≡ true
      → ((run_init L env s).1 ≡ success) × IsStarted (run_init L env s).0
  unfolding run_init arena_create arena_manager_init
  run_init-IsStarted s got key = (
    ground arith,
    record {
      running = ground arith;
      configured = ground arith;
      allocated = ground arith;
      freed = ground arith;
      one_arena = ground arith;
      arena = ((L.malloc env.arena_bytes s.heap s.memory).ptr, ground arith);
    },
  )

  allocator_init_runs :
      (s : Allocator L.Heap)
      → s.initialized ≡ false
      → s.initializing ≡ false
      → allocator_init L env s ≡ run_init L env s
  unfolding allocator_init
  allocator_init_runs s down idle = ground arith

  init_cases :
      (s : Allocator L.Heap)
      → (((L.malloc env.arena_bytes s.heap s.memory).ptr ≢ 0) × (env.key_created ≡ true))
        ⊎ (((L.malloc env.arena_bytes s.heap s.memory).ptr ≡ 0) ⊎ (env.key_created ≡ false))
  init_cases s = elim (ℕ_discrete (L.malloc env.arena_bytes s.heap s.memory).ptr 0) [
    | yes null ↦ inr (inl null)
    | no there ↦ elim (Bool-cases env.key_created) [
      | inl key ↦ inl (there, key)
      | inr no_key ↦ inr (inr no_key)
    ]
  ]

  -- `allocator_init` from the uninitialised state has two outcomes. If the C library has memory
  -- for the first arena and the thread key can be made, it succeeds and the allocator is started;
  -- if either is missing it fails, and both flags are clear again, so that it can be retried.
  pub allocator_init_outcome :
      (s : Allocator L.Heap)
      → s.initialized ≡ false
      → s.initializing ≡ false
      → let r = allocator_init L env s in
        (((L.malloc env.arena_bytes s.heap s.memory).ptr ≢ 0)
          × (env.key_created ≡ true)
          × (r.1 ≡ success)
          × IsStarted r.0)
        ⊎ ((((L.malloc env.arena_bytes s.heap s.memory).ptr ≡ 0) ⊎ (env.key_created ≡ false))
            × (r.1 ≡ failure)
            × (r.0.initialized ≡ false)
            × (r.0.initializing ≡ false))
  allocator_init_outcome s down idle = rw (allocator_init_runs s down idle) (elim (init_cases s) [
    | inl (there, key) ↦ let (a, b) = run_init-IsStarted s there key in inl (there, key, a, b)
    | inr (inl null) ↦ let (a, b, c) = run_init_refused s null in inr (inl null, a, b, c)
    | inr (inr no_key) ↦ let (a, b, c) = run_init_no_key s no_key in inr (inr no_key, a, b, c)
  ])

-- The ranges of the configuration.
pub record IsConfig (c : Config) : Type 0 where
  pub region_low : 4096 ≤ c.region_size
  pub region_high : c.region_size ≤ 256 * 1024 * 1024
  pub tcache : 64 * 1024 ≤ c.tcache_max_size
  pub threshold : 0 < c.gc_threshold
  pub watermarks : double_lt c.gc_watermark_low c.gc_watermark_high ≡ true
  pub level : is_log_level c.log_level ≡ true
  pub rate_low : double_le double_zero c.profiler_sample_rate ≡ true
  pub rate_high : double_le c.profiler_sample_rate double_one ≡ true

pub default_config-IsConfig : IsConfig default_config
unfolding double_lt double_le is_log_level
default_config-IsConfig = record {
  region_low = omega arith;
  region_high = omega arith;
  tcache = omega arith;
  threshold = omega arith;
  watermarks = refl;
  level = refl;
  rate_low = refl;
  rate_high = refl;
}

-- `allocator_configure` of a configuration succeeds and never takes the allocator's own out of its
-- ranges, whatever values it is given.
pub allocator_configure-IsConfig :
    {Heap : Type 0} (s : Allocator Heap) (c : Config)
    → IsConfig s.config
    → ((allocator_configure (some c) s).1 ≡ success)
      × IsConfig (allocator_configure (some c) s).0.config
unfolding allocator_configure
allocator_configure-IsConfig s c ok = (refl, ground arith)

-- `allocator_configure` takes over every value of a configuration that is in range.
pub allocator_configure_takes :
    {Heap : Type 0} (s : Allocator Heap) (c : Config)
    → IsConfig c
    → (allocator_configure (some c) s).0.config ≡ c
unfolding allocator_configure
allocator_configure_takes s c new = ground arith
