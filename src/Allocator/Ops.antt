-- ===== src/Allocator/Ops.antt =====
-- The allocation functions of src/core/allocator.c.
use nomalloc.Prelude.{ℕ, ◌+◌, ◌*◌, not, ◌||◌, none, some, leb, ◌==◌, if◌then◌else◌, u64, u32, sub64}
use nomalloc.Math.{align_up, is_power_of_two}
use nomalloc.Memory.{memcpy, memset}
use nomalloc.Libc.{Libc, Answer}
use nomalloc.Allocator.Header.{
  alloc_header_size, alloc_header_alignment, alloc_magic, write_header, read_header,
  write_requested_size, add_header, get_header,
}
use nomalloc.Allocator.State.{Allocator}
use nomalloc.Allocator.Init.{Platform, Entry, ready, fallback, refused, enter}

-- The bytes that `allocator_malloc` asks the C library for.
unfoldable pub malloc_total_size : ℕ → ℕ
malloc_total_size size =
    u64 (align_up size alloc_header_alignment + alloc_header_size + alloc_header_alignment)

module _ (L : Libc) where
  abbrev pub State : Type 0
  State = Allocator L.Heap

  -- The state after a call of the C library, with the pointer it returned.
  abbrev pub after : State → Answer L.Heap → State × ℕ
  after s a = (record s { heap = a.heap; memory = a.memory }, a.ptr)

  abbrev pub system_malloc : ℕ → State → State × ℕ
  system_malloc size s = after s (L.malloc size s.heap s.memory)

  abbrev pub system_free : ℕ → State → State
  system_free ptr s = (after s (L.free ptr s.heap s.memory)).0

  -- `allocator_malloc` after its check of the flags.
  unfoldable pub malloc_ready : ℕ → State → State × ℕ
  malloc_ready requested s =
      let size = if requested == 0 then 1 else requested in
      let total_size = malloc_total_size size in
      let a = L.malloc total_size s.heap s.memory in
      let (user_ptr, memory) = add_header a.memory a.ptr total_size size in
      if a.ptr == 0 then (record s { heap = a.heap; memory = a.memory }, 0) else (
        record s {
          heap = a.heap;
          memory = memory;
          total_allocated = u64 (s.total_allocated + size);
        },
        user_ptr,
      )

  -- `allocator_free` after its check of the flags.
  unfoldable pub free_ready : ℕ → State → State
  free_ready ptr s = elim (get_header s.memory ptr) [
    | none ↦ system_free ptr s
    | some at ↦
        let header = read_header s.memory at in
        system_free header.raw_ptr
          (record s { total_freed = u64 (s.total_freed + header.requested_size) })
  ]

  unfoldable pub allocator_free : ℕ → State → State
  allocator_free ptr s =
      if ptr == 0
      then s
      else if not s.initialized || s.initializing
      then system_free ptr s
      else free_ready ptr s

  -- The growing branch of `allocator_realloc`, for the header at `at`.
  unfoldable pub realloc_grow : ℕ → ℕ → ℕ → State → State × ℕ
  realloc_grow ptr at size s =
      let header = read_header s.memory at in
      let old_requested_size = header.requested_size in
      let new_total_size = malloc_total_size size in
      let a = L.malloc new_total_size s.heap s.memory in
      let copied = memcpy a.memory (u64 (a.ptr + alloc_header_size)) ptr old_requested_size in
      let written = write_header copied a.ptr (record {
        raw_ptr = a.ptr;
        size = new_total_size;
        requested_size = size;
        magic = alloc_magic;
        flags = 0;
      }) in
      let moved = record s {
        heap = a.heap;
        memory = written;
        total_freed = u64 (s.total_freed + old_requested_size);
        total_allocated = u64 (s.total_allocated + size);
      } in
      if a.ptr == 0
      then (record s { heap = a.heap; memory = a.memory }, 0)
      else (system_free (read_header written at).raw_ptr moved, u64 (a.ptr + alloc_header_size))

  -- `allocator_realloc` of a pointer with a header, for a size that is not 0.
  unfoldable pub realloc_block : ℕ → ℕ → ℕ → State → State × ℕ
  realloc_block ptr at size s =
      if leb size (read_header s.memory at).requested_size
      then (record s { memory = write_requested_size s.memory at size }, ptr)
      else realloc_grow ptr at size s

  -- Where `allocator_aligned_alloc` puts the user's pointer, and what it writes before it.
  unfoldable pub place_aligned : ℕ → ℕ → State → State × ℕ
  place_aligned alignment size s =
      let alloc_size = u64 (size + alignment + alloc_header_size) in
      let a = L.malloc alloc_size s.heap s.memory in
      let user_addr_target = align_up (u64 (a.ptr + alloc_header_size)) alignment in
      let header_addr = sub64 user_addr_target alloc_header_size in
      if a.ptr == 0 then (record s { heap = a.heap; memory = a.memory }, 0) else (
        record s {
          heap = a.heap;
          memory = write_header a.memory header_addr (record {
            raw_ptr = a.ptr;
            size = alloc_size;
            requested_size = size;
            magic = alloc_magic;
            flags = u32 alignment;
          });
        },
        user_addr_target,
      )

  unfoldable pub allocator_malloc_usable_size : ℕ → State → ℕ
  allocator_malloc_usable_size ptr s = if ptr == 0 then 0 else elim (get_header s.memory ptr) [
    | none ↦ 0
    | some at ↦ (read_header s.memory at).requested_size
  ]

  abbrev pub get_active_allocations : State → ℕ
  get_active_allocations s = sub64 s.total_allocated s.total_freed

  module _ (env : Platform) where
    -- What follows the check of the flags, for each way of going on.
    abbrev dispatch : (State → State × ℕ) → (State → State × ℕ) → State × Entry → State × ℕ
    dispatch main system (s, ready) = main s
    dispatch main system (s, fallback) = system s
    dispatch main system (s, refused) = (s, 0)

    unfoldable pub allocator_malloc : ℕ → State → State × ℕ
    allocator_malloc size s = dispatch (malloc_ready size) (system_malloc size) (enter L env s)

    unfoldable pub calloc_ready : ℕ → ℕ → State → State × ℕ
    calloc_ready nmemb size s =
        let product = u64 (nmemb * size) in
        let total_elements = if product == 0 then 1 else product in
        let (s', ptr) = allocator_malloc total_elements s in
        if ptr == 0
        then (s', 0)
        else (record s' { memory = memset s'.memory ptr 0 total_elements }, ptr)

    unfoldable pub allocator_calloc : ℕ → ℕ → State → State × ℕ
    allocator_calloc nmemb size s =
        dispatch (calloc_ready nmemb size) (λ t. after t (L.calloc nmemb size t.heap t.memory))
          (enter L env s)

    unfoldable pub realloc_ready : ℕ → ℕ → State → State × ℕ
    realloc_ready ptr size s =
        if ptr == 0
        then allocator_malloc size s
        else if size == 0
        then (allocator_free ptr s, 0)
        else elim (get_header s.memory ptr) [
          | none ↦ after s (L.realloc ptr size s.heap s.memory)
          | some at ↦ realloc_block ptr at size s
        ]

    unfoldable pub allocator_realloc : ℕ → ℕ → State → State × ℕ
    allocator_realloc ptr size s =
        dispatch (realloc_ready ptr size) (λ t. after t (L.realloc ptr size t.heap t.memory))
          (enter L env s)

    unfoldable pub aligned_ready : ℕ → ℕ → State → State × ℕ
    aligned_ready alignment size s =
        if not (is_power_of_two alignment) || alignment == 0
        then (s, 0)
        else place_aligned alignment (if size == 0 then 1 else size) s

    unfoldable pub allocator_aligned_alloc : ℕ → ℕ → State → State × ℕ
    allocator_aligned_alloc alignment size s =
        dispatch (aligned_ready alignment size) (place_aligned alignment size) (enter L env s)
