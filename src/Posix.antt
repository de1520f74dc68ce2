-- ===== src/Posix.antt =====
-- The entry points of src/api/posix_api.c over the allocator. A pointer is an address, 0 is NULL.
-- Those that only pass their arguments on (`malloc`, `free`, `calloc`, `realloc`, `dallocx`,
-- `sdallocx`, `rallocx`, `malloc_usable_size` and `sallocx`) are the functions of the allocator.
pub mod Outcomes
use nomalloc.Prelude.{ℕ, ◌+◌, Bool, true, false, not, ◌||◌, leb, ltb, ◌==◌, if◌then◌else◌, u64}
use nomalloc.Math.{align_up, is_power_of_two}
use nomalloc.Memory.{store, memset}
use nomalloc.SizeClass.{size_class_align}
use nomalloc.Libc.{Libc}
use nomalloc.Allocator.Init.{Platform}
use nomalloc.Allocator.Ops.{
  State, allocator_malloc, allocator_realloc, allocator_aligned_alloc, allocator_malloc_usable_size,
}

-- What `posix_memalign` returns: 0, EINVAL or ENOMEM.
pub data MemalignResult : Type 0 where
  done einval enomem : MemalignResult

module _ (L : Libc) (env : Platform) where
  unfoldable pub posix_memalign : ℕ → ℕ → ℕ → State L → State L × MemalignResult
  posix_memalign memptr alignment size s =
      let (s', ptr) = allocator_aligned_alloc L env alignment size s in
      if memptr == 0
      then (s, einval)
      else if not (is_power_of_two alignment) || ltb alignment 8
      then (s, einval)
      else if size == 0
      then (record s { memory = store 8 s.memory memptr 0 }, done)
      else if ptr == 0
      then (s', enomem)
      else (record s' { memory = store 8 s'.memory memptr ptr }, done)

  unfoldable pub aligned_alloc : ℕ → ℕ → State L → State L × ℕ
  aligned_alloc alignment size s =
      let aligned_size = align_up (if size == 0 then 1 else size) alignment in
      if alignment == 0 || not (is_power_of_two alignment)
      then (s, 0)
      else allocator_aligned_alloc L env alignment aligned_size s

  unfoldable pub memalign : ℕ → ℕ → State L → State L × ℕ
  memalign alignment size s =
      if alignment == 0 || not (is_power_of_two alignment)
      then (s, 0)
      else allocator_aligned_alloc L env alignment size s

  unfoldable pub valloc : ℕ → ℕ → State L → State L × ℕ
  valloc page_size size s = allocator_aligned_alloc L env page_size size s

  unfoldable pub pvalloc : ℕ → ℕ → State L → State L × ℕ
  pvalloc page_size size s = allocator_aligned_alloc L env page_size (align_up size page_size) s

  -- `zero` is the flag MALLOCX_ZERO; the other flags are not used.
  unfoldable pub mallocx : Bool → ℕ → State L → State L × ℕ
  mallocx zero size s =
      let (s', ptr) = allocator_malloc L env size s in
      if zero
      then if ptr == 0 then (s', ptr) else (record s' { memory = memset s'.memory ptr 0 size }, ptr)
      else (s', ptr)

  -- The size of the block; where a block has been moved to is not returned.
  unfoldable pub xallocx : ℕ → ℕ → ℕ → State L → State L × ℕ
  xallocx ptr size extra s =
      let old_size = allocator_malloc_usable_size L ptr s in
      let new_size = u64 (size + extra) in
      let (s', new_ptr) = allocator_realloc L env ptr new_size s in
      if ptr == 0
      then (s, 0)
      else if leb new_size old_size
      then (s, old_size)
      else if new_ptr == 0
      then (s', old_size)
      else (s', allocator_malloc_usable_size L new_ptr s')

unfoldable pub nallocx : ℕ → ℕ → ℕ
nallocx page_size size = if size == 0 then 0 else size_class_align page_size size
