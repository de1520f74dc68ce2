-- ===== src/Tcache.antt =====
-- The thread cache of src/cache/tcache.c: a bin of objects for each size class, before the current
-- arena. The locks, the prefetching and the logging are left out, and so is the adjustment of
-- `current_capacity`, which nothing reads.
pub mod Bins
pub mod Reuse
use nomalloc.Prelude.{
  ℕ, zero, suc, ◌+◌, ◌-◌, ◌*◌, ◌/◌, Bool, true, false, not, ◌&&◌, ◌||◌, Option, none, some, ltb,
  leb, ◌==◌, if◌then◌else◌, u64, sub64,
}
use nomalloc.SizeClass.{
  num_size_classes, size_to_class, class_to_size, is_small_class_idx, is_medium_class_idx,
  is_large_class_idx,
}
use nomalloc.Chunk.Types.{Chunk, ptr_to_chunk}
use nomalloc.Arena.Heap.{ArenaHeap, ChunkGrant, arena_malloc, arena_free, guess_class}

pub record TcacheBin : Type 0 where
  pub objects : ℕ → ℕ
  pub count : ℕ
  pub capacity : ℕ

pub record Tcache : Type 0 where
  pub bins : ℕ → TcacheBin
  pub alloc_count : ℕ
  pub free_count : ℕ
  pub cache_hits : ℕ
  pub cache_misses : ℕ
  pub current_capacity : ℕ
  pub max_capacity : ℕ
  pub active : Bool

abbrev pub tcache_size_default : ℕ
tcache_size_default = 1024 * 1024

unfoldable pub bin_capacity : ℕ → ℕ
bin_capacity i = if is_small_class_idx i then 32 else if is_medium_class_idx i then 16 else 4

-- Whether none of the first `n` requests for an array was answered with NULL.
unfoldable pub arrays_granted : ℕ → (ℕ → ℕ) → Bool
arrays_granted zero array = true
arrays_granted (suc n) array = if array n == 0 then false else arrays_granted n array

-- `structure` and `array` are the C library's answers; `old` is what the arrays hold.
unfoldable pub tcache_create : ℕ → (ℕ → ℕ) → (ℕ → ℕ → ℕ) → Option Tcache
tcache_create structure array old =
    if structure == 0 || not (arrays_granted num_size_classes array)
    then none
    else some (record {
      bins = λ i. record { objects = old i; count = 0; capacity = bin_capacity i };
      alloc_count = 0;
      free_count = 0;
      cache_hits = 0;
      cache_misses = 0;
      current_capacity = tcache_size_default;
      max_capacity = tcache_size_default;
      active = true;
    })

unfoldable pub set_bin : ℕ → TcacheBin → (ℕ → TcacheBin) → ℕ → TcacheBin
set_bin c bin bins d = if d == c then bin else bins d

-- `bin->objects[bin->count++] = ptr`
unfoldable pub push_object : ℕ → TcacheBin → TcacheBin
push_object ptr bin = record bin {
  objects = λ i. if i == bin.count then ptr else bin.objects i;
  count = u64 (bin.count + 1);
}

-- `bin->objects[--bin->count]`
unfoldable pub pop_object : TcacheBin → TcacheBin × ℕ
pop_object bin = let n = sub64 bin.count 1 in (record bin { count = n }, bin.objects n)

unfoldable pub tcache_alloc : ℕ → Tcache → Tcache × ℕ
tcache_alloc size tc =
    let c = size_to_class size in
    let bin = tc.bins c in
    let (bin', ptr) = pop_object bin in
    if not tc.active || size == 0
    then (tc, 0)
    else if is_large_class_idx c
    then (record tc { cache_misses = u64 (tc.cache_misses + 1) }, 0)
    else if ltb 0 bin.count
    then (
      record tc {
        bins = set_bin c bin' tc.bins;
        alloc_count = u64 (tc.alloc_count + 1);
        cache_hits = u64 (tc.cache_hits + 1);
      },
      ptr,
    )
    else (
      record tc {
        alloc_count = u64 (tc.alloc_count + 1);
        cache_misses = u64 (tc.cache_misses + 1);
      },
      0,
    )

-- The end of `tcache_free`, for the class at hand.
unfoldable pub keep_object : ℕ → ℕ → Tcache → Tcache × Bool
keep_object c ptr tc =
    let bin = tc.bins c in
    if ltb bin.count bin.capacity
    then (
      record tc {
        bins = set_bin c (push_object ptr bin) tc.bins;
        free_count = u64 (tc.free_count + 1);
      },
      true,
    )
    else (tc, false)

-- `chunks` are the chunks at their addresses; `none` is a pointer with no chunk at its chunk's
-- address.
unfoldable pub tcache_free : (ℕ → Option Chunk) → ℕ → Tcache → Option (Tcache × Bool)
tcache_free chunks ptr tc =
    if ptr == 0 || not tc.active then some (tc, false) else elim (chunks (ptr_to_chunk ptr)) [
      | none ↦ none
      | some ch ↦
          if ch.is_large
          then some (tc, false)
          else some (
              keep_object (guess_class num_size_classes 0 (sub64 ptr ch.base_addr) ch.size).0 ptr
                tc)
    ]

-- The loop of `tcache_fill`, with `left` objects to get; `got` are the system's answers to its
-- calls of `arena_malloc`.
unfoldable pub fill_loop : ℕ → ℕ → (ℕ → ChunkGrant) → TcacheBin → ArenaHeap → TcacheBin × ArenaHeap
fill_loop zero c got bin h = (bin, h)
fill_loop (suc left) c got bin h =
    let (h', ptr) = arena_malloc (got left) (class_to_size c) h in
    let rest = fill_loop left c got (push_object ptr bin) h' in if ptr == 0 then (bin, h') else rest

abbrev pub smaller : ℕ → ℕ → ℕ
smaller a b = if ltb a b then a else b

unfoldable pub tcache_fill :
    (ℕ → ChunkGrant) → ℕ → Tcache → Option ArenaHeap → Tcache × Option ArenaHeap
tcache_fill got size tc none = (tc, none)
tcache_fill got size tc (some h) =
    let c = size_to_class size in
    let bin = tc.bins c in
    let (bin', h') = fill_loop (smaller (sub64 bin.capacity bin.count) 16) c got bin h in
    if size == 0 || is_large_class_idx c
    then (tc, some h)
    else (record tc { bins = set_bin c bin' tc.bins }, some h')

-- The loop of `tcache_flush`, with `left` objects to go; without an arena they are dropped.
unfoldable pub flush_loop : ℕ → TcacheBin → Option ArenaHeap → Option (TcacheBin × Option ArenaHeap)
flush_loop zero bin arena = some (bin, arena)
flush_loop (suc left) bin arena =
    let (bin', ptr) = pop_object bin in
    if bin.count == 0 then flush_loop left bin arena else elim arena [
      | none ↦ flush_loop left bin' none
      | some h ↦ elim (arena_free ptr h) [ none ↦ none | some h' ↦ flush_loop left bin' (some h') ]
    ]

unfoldable pub tcache_flush : ℕ → Tcache → Option ArenaHeap → Option (Tcache × Option ArenaHeap)
tcache_flush size tc arena =
    let c = size_to_class size in
    if size == 0 || is_large_class_idx c
    then some (tc, arena)
    else elim (flush_loop ((tc.bins c).count / 2) (tc.bins c) arena) [
      | none ↦ none
      | some (bin, arena') ↦ some (record tc { bins = set_bin c bin tc.bins }, arena')
    ]

-- The loop of `tcache_destroy` over one bin, at object `j` with `left` to go.
unfoldable pub drain_loop : ℕ → ℕ → (ℕ → ℕ) → ArenaHeap → Option ArenaHeap
drain_loop zero j objects h = some h
drain_loop (suc left) j objects h = elim (arena_free (objects j) h) [
  | none ↦ none
  | some h' ↦ drain_loop left (j + 1) objects h'
]

-- The loop of `tcache_destroy` over the bins, at bin `i` with `left` to go.
unfoldable pub destroy_loop : ℕ → ℕ → (ℕ → TcacheBin) → ArenaHeap → Option ArenaHeap
destroy_loop zero i bins h = some h
destroy_loop (suc left) i bins h = elim (drain_loop (bins i).count 0 (bins i).objects h) [
  | none ↦ none
  | some h' ↦ destroy_loop left (i + 1) bins h'
]

-- What `tcache_destroy` leaves of the arena.
unfoldable pub tcache_destroy : Tcache → Option ArenaHeap → Option (Option ArenaHeap)
tcache_destroy tc none = some none
tcache_destroy tc (some h) = elim (destroy_loop num_size_classes 0 tc.bins h) [
  | none ↦ none
  | some h' ↦ some (some h')
]
