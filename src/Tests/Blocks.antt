-- ===== src/Tests/Blocks.antt =====
-- The allocation functions on a started allocator over the C library `bump_libc`: a block of 24
-- bytes is at 48, its header at 16.
use nomalloc.Prelude.{ℕ, ◌+◌, ◌==◌, if◌then◌else◌, ◌^◌, ◌≡◌, ◌≢◌, ◌⊎◌, refl, true, false, arith}
use nomalloc.Memory.{Memory, Agree, Apart, write, store, load}
use nomalloc.Libc.{bump, bump_libc, bump_contract}
use nomalloc.Math.{align_up, is_power_of_two}
use nomalloc.Arena.{arena_manager_init}
use nomalloc.Allocator.Header.{AllocHeader, add_header, get_header, read_header, write_header}
use nomalloc.Allocator.State.{Allocator}
use nomalloc.Allocator.Init.{Platform, default_config, enter, allocator_init, success, failure}
use nomalloc.Allocator.Ops.{
  malloc_total_size, malloc_ready, allocator_malloc, allocator_free, allocator_calloc, calloc_ready,
  allocator_realloc, realloc_ready, realloc_block, realloc_grow, allocator_aligned_alloc,
  aligned_ready, place_aligned, get_active_allocations,
}
use nomalloc.Allocator.Blocks.{allocator_malloc_ptr, IsBlock, IsFresh, allocator_malloc-IsFresh}
use nomalloc.Allocator.Free.{IsRunning, allocator_free-allocator_malloc}
use nomalloc.Allocator.Realloc.{realloc_shrink}
use nomalloc.Allocator.Grow.{IsGrown, realloc_grow_keeps}
use nomalloc.Allocator.Aligned.{IsAlignedBlock, aligned_alloc-IsAlignedBlock}
use nomalloc.Allocator.Calloc.{IsZeroed, allocator_calloc-IsZeroed}
use nomalloc.Posix.{done, enomem, posix_memalign, xallocx}
use nomalloc.Posix.Outcomes.{posix_memalign_outcome, xallocx_moves}
use nomalloc.Allocator.Start.{IsStarted, allocator_init_outcome}

abbrev platform : Platform
platform = record { arena_bytes = 200; key_created = true }

abbrev started : Allocator ℕ
started = record {
  initialized = true;
  initializing = false;
  config = default_config;
  total_allocated = 100;
  total_freed = 40;
  arenas = arena_manager_init;
  heap = 1;
  memory = λ x. 0;
}

abbrev stopped : Allocator ℕ
stopped = record started { initialized = false }

started-IsRunning : IsRunning started
started-IsRunning = record { up = refl; settled = refl }

abbrev taken : Allocator ℕ × ℕ
taken = allocator_malloc bump_libc platform 24 started

taken-ptr : taken.1 ≡ 48
unfolding allocator_malloc enter malloc_ready malloc_total_size bump align_up add_header
taken-ptr = refl

taken-up : taken.0.initialized ≡ true
unfolding allocator_malloc enter malloc_ready malloc_total_size bump align_up add_header
taken-up = refl

taken_there : taken.1 ≢ 0
taken_there = omega (arith, taken-ptr)

taken-IsBlock :
    (h : AllocHeader) × IsBlock bump_contract taken.0 taken.1 h × (h.requested_size ≡ 24)
taken-IsBlock = (
  _,
  (allocator_malloc-IsFresh bump_contract platform 24 started refl (omega arith) taken_there).block,
  refl,
)

allocator_malloc-IsFresh_example :
    IsFresh bump_contract 24 started (allocator_malloc bump_libc platform 24 started)
allocator_malloc-IsFresh_example =
    allocator_malloc-IsFresh bump_contract platform 24 started refl (omega arith) taken_there

allocator_free-allocator_malloc_example :
    ((allocator_free bump_libc taken.1 taken.0).heap ≡ taken.0.heap)
    × (get_active_allocations bump_libc (allocator_free bump_libc taken.1 taken.0)
        ≡ get_active_allocations bump_libc started)
allocator_free-allocator_malloc_example =
    allocator_free-allocator_malloc bump_contract platform 24 started started-IsRunning
      (omega arith) (omega arith) (omega arith) taken_there

realloc_grow_keeps_example :
    IsGrown bump_contract taken.0 taken.1 100 taken-IsBlock.0
      (allocator_realloc bump_libc platform taken.1 100 taken.0)
realloc_grow_keeps_example =
    realloc_grow_keeps bump_contract platform taken.0 taken.1 100 taken-IsBlock.0 taken-up
      taken-IsBlock.1 (omega (arith, taken-IsBlock.2)) (omega arith)

realloc_shrink_example :
    ((allocator_realloc bump_libc platform taken.1 10 taken.0).1 ≡ taken.1)
    × IsBlock bump_contract
        (allocator_realloc bump_libc platform taken.1 10 taken.0).0
        taken.1
        (record (taken-IsBlock.0) { requested_size = 10 })
    × Agree taken.0.memory
        (allocator_realloc bump_libc platform taken.1 10 taken.0).0.memory
        taken.1
        10
    × ((allocator_realloc bump_libc platform taken.1 10 taken.0).0.heap ≡ taken.0.heap)
realloc_shrink_example =
    realloc_shrink bump_contract platform taken.0 taken.1 10 taken-IsBlock.0 taken-up (omega arith)
      (omega (arith, taken-IsBlock.2)) taken-IsBlock.1

-- 24 bytes at a multiple of 64: the C library answers 16, the block is at 64.
abbrev aligned : Allocator ℕ × ℕ
aligned = allocator_aligned_alloc bump_libc platform (2 ^ 6) 24 started

aligned-ptr : aligned.1 ≡ 64
unfolding allocator_aligned_alloc enter aligned_ready place_aligned bump align_up is_power_of_two
aligned-ptr = refl

aligned_there : aligned.1 ≢ 0
aligned_there = omega (arith, aligned-ptr)

aligned_alloc-IsAlignedBlock_example :
    IsAlignedBlock bump_contract started
      (2 ^ 6)
      24
      (allocator_aligned_alloc bump_libc platform (2 ^ 6) 24 started)
aligned_alloc-IsAlignedBlock_example =
    aligned_alloc-IsAlignedBlock bump_contract platform started 6 24 refl (omega arith)
      aligned_there

cleared-ptr : (allocator_calloc bump_libc platform 3 8 started).1 ≡ 48
unfolding allocator_calloc calloc_ready allocator_malloc enter malloc_ready malloc_total_size bump
    align_up add_header
cleared-ptr = refl

allocator_calloc-IsZeroed_example :
    IsZeroed bump_contract 24 (allocator_calloc bump_libc platform 3 8 started)
allocator_calloc-IsZeroed_example =
    allocator_calloc-IsZeroed bump_contract platform 3 8 started refl (omega arith)
      (omega (arith, cleared-ptr))

allocator_init_outcome_example :
    ((bump 200 1 (λ x. 0)).ptr ≢ 0)
      × (true ≡ true)
      × ((allocator_init bump_libc platform stopped).1 ≡ success)
      × IsStarted (allocator_init bump_libc platform stopped).0
    ⊎ (((bump 200 1 (λ x. 0)).ptr ≡ 0) ⊎ (true ≡ false))
      × ((allocator_init bump_libc platform stopped).1 ≡ failure)
      × ((allocator_init bump_libc platform stopped).0.initialized ≡ false)
      × ((allocator_init bump_libc platform stopped).0.initializing ≡ false)
allocator_init_outcome_example = allocator_init_outcome bump_libc platform stopped refl refl

allocator_malloc_ptr_example : (allocator_malloc bump_libc platform 24 started).1 ≡ (
    if (bump (malloc_total_size 24) 1 (λ x. 0)).ptr == 0
    then 0
    else (bump (malloc_total_size 24) 1 (λ x. 0)).ptr + 32)
allocator_malloc_ptr_example =
    allocator_malloc_ptr bump_contract platform 24 started refl (omega arith)

posix_memalign_outcome_example :
    let (t, ptr) = allocator_aligned_alloc bump_libc platform (2 ^ 6) 24 started in
    let (u, result) = posix_memalign bump_libc platform 4000 (2 ^ 6) 24 started in
    ((ptr ≡ 0) × (result ≡ enomem) × (u ≡ t))
    ⊎ ((result ≡ done)
        × IsAlignedBlock bump_contract started (2 ^ 6) 24 (t, ptr)
        × (u ≡ record t { memory = u.memory })
        × (load 8 u.memory 4000 ≡ ptr)
        × ((b n : ℕ) → Apart b n 4000 8 → Agree t.memory u.memory b n))
posix_memalign_outcome_example =
    posix_memalign_outcome bump_contract platform started 4000 6 24 refl (omega arith) (omega arith)
      (omega arith) (omega arith)

-- The sum of size, alignment and header wraps to 95 bytes, and the block at 64 claims 2^64 - 1.
aligned_alloc_wraps :
    let (t, ptr) = allocator_aligned_alloc bump_libc platform 64 18446744073709551615 started in
    (ptr ≡ 64) × (t.heap ≡ 7) × ((read_header t.memory 32).requested_size ≡ 18446744073709551615)
unfolding allocator_aligned_alloc aligned_ready place_aligned enter bump align_up is_power_of_two
    read_header write_header load store write
aligned_alloc_wraps = (refl, refl, refl)

grown-ptr : (allocator_realloc bump_libc platform taken.1 100 taken.0).1 ≡ 144
unfolding allocator_realloc realloc_ready realloc_block realloc_grow allocator_malloc enter
    malloc_ready malloc_total_size bump align_up add_header get_header read_header write_header load
    store write
grown-ptr = refl

xallocx_moves_example :
    let (t, n) = xallocx bump_libc platform taken.1 60 40 taken.0 in
    let a = bump (malloc_total_size 100) (taken.0).heap (taken.0).memory in
    (n ≡ 100)
    × ((k : AllocHeader) × IsBlock bump_contract t (a.ptr + 32) k
        × (k.requested_size ≡ 100)
        × (k.raw_ptr ≢ (taken-IsBlock.0).raw_ptr))
    × ((m : Memory) × (t.heap ≡ a.heap) × (t.memory ≡ m))
xallocx_moves_example =
    xallocx_moves bump_contract platform taken.0 taken.1 60 40 taken-IsBlock.0 taken-up
      taken-IsBlock.1 taken_there (omega (arith, taken-IsBlock.2)) (omega arith)
      (omega (arith, grown-ptr))
