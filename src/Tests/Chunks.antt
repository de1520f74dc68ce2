-- ===== src/Tests/Chunks.antt =====
-- The chunks, the allocations of an arena, the thread cache and the LIRS cache.
use nomalloc.Prelude.{
  ℕ, ◌+◌, ◌≡◌, ◌≢◌, refl, subst, Bool, true, false, arith, [], Option, some, none, if◌then◌else◌,
  ◌==◌, u64,
}
use nomalloc.SizeClass.{class_to_size}
use nomalloc.Chunk.Types.{Chunk, ptr_to_chunk, ptr_is_in_chunk}
use nomalloc.Chunk.Small.{RunGrant, chunk_alloc_small}
use nomalloc.Chunk.Runs.{IsSoundChunk, chunk_alloc_small-IsSoundChunk}
use nomalloc.Chunk.Overlap.{IsGranted, first_blocks_overlap}
use nomalloc.Arena.{new_arena}
use nomalloc.Arena.Heap.{ArenaHeap, ChunkGrant, arena_malloc, arena_free}
use nomalloc.Arena.Sound.{KeptHeap, arena-IsSoundHeap}
use nomalloc.Arena.Guess.{IsSoundHeap, IsBlockOf, arena_malloc_null, arena_free_keeps}
use nomalloc.Lirs.{LirsCache, no_lirs_stats, hash_size_loop, hir_capacity_of, lirs_create}
use nomalloc.Lirs.Ops.{lirs_get, lirs_put, lirs_remove, lirs_contains}
use nomalloc.Lirs.Clear.{
  clear_stack, clear_queue, clear_lists, lirs_clear, lirs_destroy, lirs_set_evict_callback,
}
use nomalloc.Lirs.Insert.{lirs_resize}
use nomalloc.Lirs.Vacant.{Step, Reach, IsVacant, lirs_create-IsVacant}
use nomalloc.Tcache.{Tcache, tcache_alloc, tcache_fill, tcache_free, tcache_flush}
use nomalloc.Tcache.Bins.{IsTcache, KeptCache, tcache-IsTcache}
use nomalloc.Tcache.Reuse.{tcache_alloc-tcache_free}

-- A chunk of 2 MiB at 8 MiB.
abbrev some_chunk : Chunk
some_chunk = record {
  base_addr = 8388608;
  size = 2097152;
  usable_offset = 2048;
  is_large = false;
  num_runs = 0;
  runs_free = λ c. [];
  runs_full = λ c. [];
  allocated_bytes = 2048;
  freed_bytes = 0;
}

abbrev grant : RunGrant
grant = record { run = 4096; bitmap = 8192 }

some_chunk-IsSoundChunk : IsSoundChunk some_chunk
some_chunk-IsSoundChunk = record { free_runs = λ c. tt; full_runs = λ c. tt }

grant-IsGranted : IsGranted grant
grant-IsGranted = record { run = omega arith; bitmap = omega arith }

chunk_alloc_small-IsSoundChunk_example : IsSoundChunk (chunk_alloc_small grant 4 some_chunk).0
chunk_alloc_small-IsSoundChunk_example =
    chunk_alloc_small-IsSoundChunk grant 4 some_chunk some_chunk-IsSoundChunk

class_four : class_to_size 4 ≡ 64
unfolding class_to_size
class_four = refl

class_eight : class_to_size 8 ≡ 128
unfolding class_to_size
class_eight = refl

first_blocks_overlap_example :
    ((chunk_alloc_small grant 4 some_chunk).1 ≡ 8390656)
    × ((chunk_alloc_small grant 8 (chunk_alloc_small grant 4 some_chunk).0).1
        ≡ (chunk_alloc_small grant 4 some_chunk).1)
first_blocks_overlap_example =
    first_blocks_overlap grant grant 4 8 some_chunk grant-IsGranted grant-IsGranted refl refl
      (omega arith) (omega (arith, class_four), omega (arith, class_four))
      (omega (arith, class_eight), omega (arith, class_eight))

-- An arena whose chunk serves every class.
abbrev some_heap : ArenaHeap
some_heap = record {
  arena = new_arena 64 0 0;
  first_free = λ c. some 8388608;
  chunks = λ a. if a == 8388608 then some some_chunk else none;
  total_allocated = 0;
  total_freed = 0;
}

abbrev system : ChunkGrant
system = record { page_size = 4096; mmap = λ n. none; chunk_bytes = 2000; run = grant }

abbrev Sound? : Option Chunk → Type 0
Sound? none = Unit {0}
Sound? (some ch) = IsSoundChunk ch

if_sound : (b : Bool) → Sound? (if b then some some_chunk else none)
if_sound true = some_chunk-IsSoundChunk
if_sound false = tt

some_heap-IsSoundHeap : IsSoundHeap some_heap
some_heap-IsSoundHeap a ch e = subst Sound? e (if_sound (a == 8388608))

arena-IsSoundHeap_example :
    ((got : ChunkGrant) (size : ℕ) → IsSoundHeap (arena_malloc got size some_heap).0)
    × ((ptr : ℕ) → KeptHeap (arena_free ptr some_heap))
arena-IsSoundHeap_example = arena-IsSoundHeap some_heap some_heap-IsSoundHeap

arena_malloc_null_example : (arena_malloc system 5000 some_heap).1 ≡ 0
arena_malloc_null_example =
    arena_malloc_null system 5000 some_heap some_heap-IsSoundHeap (omega arith) (omega arith)

block : IsBlockOf some_chunk 8390720 some_heap
unfolding ptr_to_chunk ptr_is_in_chunk
block = record {
  not_null = omega arith;
  chunk = refl;
  base = refl;
  small = refl;
  inside = refl;
  aligned = refl;
  usable = omega arith;
}

arena_free_keeps_example :
    (h' : ArenaHeap) × (arena_free 8390720 some_heap ≡ some h')
    × ((a : ℕ) → h'.chunks a ≡ some_heap.chunks a)
    × (h'.arena.freed_bytes ≡ u64 (0 + 8))
    × (h'.arena.num_chunks ≡ 0)
unfolding new_arena
arena_free_keeps_example = arena_free_keeps some_chunk 8390720 some_heap block refl refl refl

abbrev empty_cache : Tcache
empty_cache = record {
  bins = λ c. record { objects = λ i. 0; count = 0; capacity = 32 };
  alloc_count = 0;
  free_count = 0;
  cache_hits = 0;
  cache_misses = 0;
  current_capacity = 1048576;
  max_capacity = 1048576;
  active = true;
}

empty_cache-IsTcache : IsTcache empty_cache
empty_cache-IsTcache c = record { held = omega arith; room = omega arith }

tcache-IsTcache_example :
    IsTcache (tcache_alloc 24 empty_cache).0
    × ((got : ℕ → ChunkGrant) (arena : Option ArenaHeap)
        → IsTcache (tcache_fill got 24 empty_cache arena).0)
    × ((chunks : ℕ → Option Chunk) → KeptCache (tcache_free chunks 8390720 empty_cache))
    × ((arena : Option ArenaHeap) → KeptCache (tcache_flush 24 empty_cache arena))
tcache-IsTcache_example = tcache-IsTcache 24 8390720 empty_cache empty_cache-IsTcache

tcache_alloc-tcache_free_example :
    (tc' : Tcache) × (tcache_free some_heap.chunks 8390720 empty_cache ≡ some (tc', true))
    × ((tcache_alloc 8 tc').1 ≡ 8390720)
    × (((tcache_alloc 8 tc').0.bins 0).count ≡ 0)
tcache_alloc-tcache_free_example =
    tcache_alloc-tcache_free some_heap.chunks 8390720 8 empty_cache some_chunk empty_cache-IsTcache
      refl (omega arith) block.chunk refl (omega arith) (omega arith) (omega arith)
      (omega arith, omega arith)

-- A new LIRS cache for four blocks.
abbrev new_lirs : LirsCache
new_lirs = record {
  capacity = 4;
  hir_capacity = 2;
  max_size = 100;
  s_stack = [];
  q_queue = [];
  s_stack_size = 0;
  q_queue_size = 0;
  hash_table = λ i. [];
  hash_table_mask = 7;
  blocks = λ a. none;
  stats = no_lirs_stats 100;
  current_time = 0;
  has_callback = false;
  evicted = [];
}

-- The cache after it is given a callback and then cleared.
abbrev cleared_lirs : LirsCache
cleared_lirs = record new_lirs { has_callback = true }

lirs_create-IsVacant_example :
    IsVacant cleared_lirs
    × ((key value size : ℕ)
        → key ≢ 0
        → (lirs_get key cleared_lirs ≡ none)
          × (lirs_put key value size cleared_lirs ≡ none)
          × (lirs_contains cleared_lirs key ≡ none)
          × (lirs_remove key cleared_lirs ≡ none))
    × ((new_capacity : ℕ) → (e : LirsCache) × (lirs_resize 1 new_capacity cleared_lirs ≡ some e))
    × ((e : LirsCache) × (lirs_clear cleared_lirs ≡ some e))
    × (lirs_destroy cleared_lirs ≡ some [])
unfolding lirs_create hash_size_loop hir_capacity_of lirs_clear clear_lists clear_stack clear_queue
    lirs_set_evict_callback
lirs_create-IsVacant_example = lirs_create-IsVacant 1 1 4 100 new_lirs cleared_lirs refl (
    Reach.next (Reach.next Reach.here (Step.set_evict_callback true new_lirs))
      (Step.clear (record new_lirs { has_callback = true }) cleared_lirs refl))
