-- ===== src/Lib.antt =====
-- nomalloc: a memory allocator in C that puts a header in front of each block it gets from the C
-- library, with size classes, arenas, and a garbage collector over regions.
--
-- The parts and where they are modelled:
--   Math       the integer helpers, src/utils/math.h
--   SizeClass  the size classes, src/core/size_class.h
--   Bitmap     the bitmaps, src/utils/bitmap.h
--   Hash       the hash functions and the table, src/utils/hash.h
--   Memory     bytes, `memcpy` and `memset`
--   Libc       the C library under the allocator: a parameter, and the contract it keeps
--   Pages      `memory_alloc_aligned` and `memory_free_aligned`, src/utils/memory.h
--   Chunk      the chunks and their runs, src/memory/chunk.c and src/memory/chunk.h
--   Arena      the table of arenas, and allocation from chunks in Arena/Heap, src/memory/arena.c
--   Tcache     the thread cache over an arena, src/cache/tcache.c
--   Lirs       the LIRS cache, src/cache/lirs/lirs.c
--   Leak       the leak detector, src/debug/leak_detector.c
--   Stats      the statistics and their histograms, src/debug/stats_collector.c
--   HugePages  the huge pages, src/os/hugepages.c
--   Numa       the topology of the memory nodes, src/os/numa.c and src/os/numa.h
--   Posix      the entry points of src/api/posix_api.c that do more than forward
--   Links      the intrusive lists as pointers, and the rings they form, src/utils/list.h
--   Allocator  the allocator, src/core/allocator.c and src/core/allocator.h
--   GcRegion   the regions of the collector, src/gc/gc_region.c
--   Collector  the settings and the collections, src/gc/gc.c
--   Prelude    shared names, Boolean tests, lists, bits and machine words
--   Tests      the theorems at concrete inputs
--
-- An operation has the name of its C function. It takes the state of its part and returns the new
-- state with its result: `Allocator` is the global `g_allocator` with the flag
-- `g_allocator_initializing`, the arena manager, the heap of the C library and the memory;
-- `ArenaManager` is `g_arena_manager`; `RegionManager` is `g_gc_region_manager`. A pointer is an
-- address, 0 is NULL. In Allocator/Ops each operation is the check of the two flags (`enter`),
-- followed by a function with the rest of the body (`malloc_ready` and the like). `size_t` and
-- `uint64_t` are natural numbers with the wrap-around at 2^64 written out, and `uint32_t` with the
-- one at 2^32.
--
-- The theorems about the allocator hold for every C library that keeps `Libc.Contract`; `bump_libc`
-- is one that does. Other inputs from outside the repository are parameters too: the size of
-- `struct arena` and the result of `pthread_key_create` in `Platform`, `mmap` and the page size in
-- Pages and in `Grant`.
--
-- A loop without a bound in the source takes fuel and answers `none` without any left: 64 rounds are
-- enough for the powers of two and the logarithms of 64-bit words, and 65 for `popcount_u64`. The
-- loops of the hash table have the capacity as their bound, as in the source, and the scans of
-- tables and bitmaps run over their length.
--
-- The chunks of an arena stand at their addresses in `ArenaHeap`, and the runs of a chunk in the
-- list that the source links them in. `Gc` is the global `g_gc` with the region manager. A result
-- `none` of an operation that the source gives no failure is a fault: a read through NULL or
-- through a pointer that is none, or a walk that leaves its list and does not come back.
--
-- In Lirs the insertion of a new key, `lirs_put_new`, is apart from `lirs_put`, since the lookup
-- before it does not return for a key that is not there. Its loop that makes room runs once at
-- most. `resize_loop` takes fuel; one round is enough on every cache that the calls reach.
--
-- The models run on one thread: locks, atomics and thread-local caches are left out, and so are
-- logging, printing and the writing of reports, the list of all chunks of an arena, the shutdown of
-- the collector, the manager of the LIRS caches, and the binding of threads to memory nodes. Times,
-- threads and stack frames are arguments. `double` values are bit patterns in the settings of the
-- allocator and of the collector, elsewhere their comparisons are written with whole numbers, and
-- the rates of the statistics are left out.
pub mod Prelude
pub mod Math
pub mod SizeClass
pub mod Bitmap
pub mod Memory
pub mod Links
pub mod Libc
pub mod Arena
pub mod Allocator
pub mod Numa
pub mod Posix
pub mod Pages
pub mod HugePages
pub mod Chunk
pub mod Tcache
pub mod Lirs
pub mod GcRegion
pub mod Collector
pub mod Hash
pub mod Leak
pub mod Stats
pub mod Tests
