-- ===== src/Arena/Heap.antt =====
-- The allocations of src/memory/arena.c from the chunks of an arena. A chunk stands at its base
-- address. Of an arena's lists the model has what the code reads: the first chunk of
-- `chunks_free[c]`. Nothing is ever put into `chunks_partial` or `chunks_full`, a chunk is put
-- behind the first of its class, and only large chunks, which are in no list of a class, are
-- taken out, so the first chunk of a class stays the first.
use nomalloc.Prelude.{
  ℕ, zero, suc, ◌+◌, ◌*◌, ◌%◌, not, ◌&&◌, ◌||◌, Option, none, some, ltb, leb, ◌==◌, if◌then◌else◌,
  u64, sub64,
}
use nomalloc.SizeClass.{num_size_classes, size_to_class, class_to_size, is_large_class_idx}
use nomalloc.Memory.{Memory, memcpy}
use nomalloc.Arena.{Arena}
use nomalloc.Chunk.Types.{Chunk, chunk_create, ptr_to_chunk, ptr_is_in_chunk, usable_base}
use nomalloc.Chunk.Small.{RunGrant, chunk_alloc_small, chunk_free_small}
use nomalloc.Chunk.Large.{chunk_alloc_large, chunk_free_large}

-- `total_allocated` and `total_freed` are those of the manager.
pub record ArenaHeap : Type 0 where
  pub arena : Arena
  pub first_free : ℕ → Option ℕ
  pub chunks : ℕ → Option Chunk
  pub total_allocated : ℕ
  pub total_freed : ℕ

-- What the system answers during one call: the page size, `mmap`, `sizeof(struct chunk)`, and the
-- C library's answers for a run.
pub record ChunkGrant : Type 0 where
  pub page_size : ℕ
  pub mmap : ℕ → Option ℕ
  pub chunk_bytes : ℕ
  pub run : RunGrant

abbrev pub chunk_default_size : ℕ
chunk_default_size = 2 * 1024 * 1024

unfoldable pub put_chunk : Chunk → (ℕ → Option Chunk) → ℕ → Option Chunk
put_chunk ch chunks a = if a == ch.base_addr then some ch else chunks a

unfoldable pub drop_chunk : ℕ → (ℕ → Option Chunk) → ℕ → Option Chunk
drop_chunk base chunks a = if a == base then none else chunks a

unfoldable pub set_first : ℕ → ℕ → (ℕ → Option ℕ) → ℕ → Option ℕ
set_first c base first d = if d == c then some base else first d

abbrev pub made : ChunkGrant → Option Chunk
made got = chunk_create got.page_size got.mmap got.chunk_bytes chunk_default_size

-- `size` bytes more count as allocated.
abbrev pub count_allocated : ℕ → ArenaHeap → ArenaHeap
count_allocated size h = record h {
  arena = record (h.arena) { allocated_bytes = u64 (h.arena.allocated_bytes + size) };
  total_allocated = u64 (h.total_allocated + size);
}

abbrev pub count_freed : ℕ → ArenaHeap → ArenaHeap
count_freed size h = record h {
  arena = record (h.arena) { freed_bytes = u64 (h.arena.freed_bytes + size) };
  total_freed = u64 (h.total_freed + size);
}

-- One chunk more, `ch`.
abbrev pub add_chunk : Chunk → ArenaHeap → ArenaHeap
add_chunk ch h = record h {
  arena = record (h.arena) { num_chunks = u64 (h.arena.num_chunks + 1) };
  chunks = put_chunk ch h.chunks;
}

-- The branch of `arena_malloc` for large sizes.
unfoldable pub malloc_large : ChunkGrant → ℕ → ArenaHeap → ArenaHeap × ℕ
malloc_large got size h =
    if leb h.arena.max_chunks h.arena.num_chunks then (h, 0) else elim (made got) [
      | none ↦ (h, 0)
      | some ch ↦
          let (ch', ptr) = chunk_alloc_large size ch in
          if ptr == 0 then (h, 0) else (count_allocated size (add_chunk ch' h), ptr)
    ]

-- `arena_find_available_chunk`: the first chunk of the class. The outer `none` is a chunk that is
-- not there.
unfoldable pub arena_find_available_chunk : ArenaHeap → ℕ → Option Chunk
arena_find_available_chunk h c = elim (h.first_free c) [ none ↦ none | some base ↦ h.chunks base ]

-- The end of `arena_malloc`, for the chunk at hand.
unfoldable pub serve : ChunkGrant → ℕ → Chunk → ArenaHeap → ArenaHeap × ℕ
serve got c ch h =
    let (ch', ptr) = chunk_alloc_small got.run c ch in
    let h' = record h { chunks = put_chunk ch' h.chunks } in
    (if ptr == 0 then h' else count_allocated (class_to_size c) h', ptr)

unfoldable pub malloc_small : ChunkGrant → ℕ → ArenaHeap → ArenaHeap × ℕ
malloc_small got c h = elim (arena_find_available_chunk h c) [
  | some ch ↦ serve got c ch h
  | none ↦ if leb h.arena.max_chunks h.arena.num_chunks then (h, 0) else elim (made got) [
    | none ↦ (h, 0)
    | some ch ↦
        let added = add_chunk ch h in
        serve got c ch (record added { first_free = set_first c ch.base_addr h.first_free })
  ]
]

unfoldable pub arena_malloc : ChunkGrant → ℕ → ArenaHeap → ArenaHeap × ℕ
arena_malloc got size h =
    let c = size_to_class size in
    let counted = record h {
      arena = record (h.arena) { alloc_ops = u64 (h.arena.alloc_ops + 1) };
    } in
    if size == 0 || not h.arena.active
    then (h, 0)
    else if is_large_class_idx c
    then malloc_large got size counted
    else malloc_small got c counted

-- The loop of `arena_free` at class `i`, with `left` classes to go: the first class whose size
-- divides the offset.
unfoldable pub guess_class : ℕ → ℕ → ℕ → ℕ → ℕ × ℕ
guess_class zero i offset room = (0, 0)
guess_class (suc left) i offset room =
    let rest = guess_class left (i + 1) offset room in
    let block_size = class_to_size i in
    if not (block_size == 0) && offset % block_size == 0 && ltb offset room
    then (i, block_size)
    else rest

-- `chunk_get_utilization(chunk) < 0.1` is the comparison of the doubles, exact for chunks of a
-- power of two.
unfoldable pub free_large : Chunk → ℕ → ArenaHeap → ArenaHeap
free_large ch ptr h =
    let size = sub64 ch.allocated_bytes ch.freed_bytes in
    let ch' = chunk_free_large ptr size ch in
    let h' = count_freed size h in
    if ltb (10 * ch'.allocated_bytes) ch'.size
    then record h' {
      arena = record (h'.arena) { num_chunks = sub64 h.arena.num_chunks 1 };
      chunks = drop_chunk ch.base_addr h.chunks;
    }
    else record h' { chunks = put_chunk ch' h.chunks }

unfoldable pub free_small : Chunk → ℕ → ArenaHeap → ArenaHeap
free_small ch ptr h =
    let (c, size) =
      guess_class num_size_classes 0 (sub64 ptr (usable_base ch))
        (sub64 ch.size ch.usable_offset) in
    let (ch', freed) = chunk_free_small ptr c ch in
    count_freed size (record h { chunks = put_chunk ch' h.chunks })

-- `none` is a pointer with no chunk at its chunk's address.
unfoldable pub arena_free : ℕ → ArenaHeap → Option ArenaHeap
arena_free ptr h =
    if ptr == 0 || not h.arena.active then some h else elim (h.chunks (ptr_to_chunk ptr)) [
      | none ↦ none
      | some ch ↦
          let counted = record h {
            arena = record (h.arena) { free_ops = u64 (h.arena.free_ops + 1) };
          } in
          if not (ptr_is_in_chunk ch ptr)
          then some h
          else some (if ch.is_large then free_large ch ptr counted else free_small ch ptr counted)
    ]

-- The loop of `arena_realloc`, which has no test for a size of 0: the first class whose size
-- divides the offset. `none` is a division by 0, or the use of `old_size` without a value.
unfoldable pub guess_size : ℕ → ℕ → ℕ → ℕ → Option ℕ
guess_size zero i offset room = none
guess_size (suc left) i offset room =
    let rest = guess_size left (i + 1) offset room in
    let block_size = class_to_size i in
    if block_size == 0
    then none
    else if offset % block_size == 0 && ltb offset room
    then some block_size
    else rest

unfoldable pub old_size_of : Chunk → ℕ → Option ℕ
old_size_of ch ptr =
    if ch.is_large
    then some (sub64 ch.allocated_bytes ch.freed_bytes)
    else guess_size num_size_classes 0 (sub64 ptr ch.base_addr) ch.size

-- A block of another size: the new block gets `old_size` bytes of the old one.
unfoldable pub move_block :
    ChunkGrant → ℕ → ℕ → ℕ → ArenaHeap → Memory → Option (ArenaHeap × Memory × ℕ)
move_block got ptr old_size size h m =
    let (h', new_ptr) = arena_malloc got size h in
    if new_ptr == 0 then some (h', m, 0) else elim (arena_free ptr h') [
      | none ↦ none
      | some h'' ↦ some (h'', memcpy m new_ptr ptr old_size, new_ptr)
    ]

unfoldable pub arena_realloc :
    ChunkGrant → ℕ → ℕ → ArenaHeap → Memory → Option (ArenaHeap × Memory × ℕ)
arena_realloc got ptr size h m =
    if ptr == 0
    then (let (h', p) = arena_malloc got size h in some (h', m, p))
    else if size == 0
    then elim (arena_free ptr h) [ none ↦ none | some h' ↦ some (h', m, 0) ]
    else elim (h.chunks (ptr_to_chunk ptr)) [
      | none ↦ none
      | some ch ↦ elim (old_size_of ch ptr) [
        | none ↦ none
        | some old_size ↦
            if leb size old_size then some (h, m, ptr) else move_block got ptr old_size size h m
      ]
    ]
