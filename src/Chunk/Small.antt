-- ===== src/Chunk/Small.antt =====
-- Small objects: `chunk_find_available_run`, `chunk_alloc_small` and `chunk_free_small` of
-- src/memory/chunk.c. `chunk_free_small` walks both lists of a size class with one counter.
use nomalloc.Prelude.{
  ℕ, ◌+◌, ◌-◌, ◌*◌, ◌/◌, Bool, false, not, ◌&&◌, ◌||◌, List, [], ◌∷◌, ◌++◌, Option, none, some, ltb,
  leb, ◌==◌, if◌then◌else◌, u64, sub64, replicate, length, get_elem?,
}
use nomalloc.SizeClass.{class_to_size}
use nomalloc.Bitmap.{bitmap_size, bitmap_get, bitmap_set, bitmap_clear_bit, bitmap_find_first_clear}
use nomalloc.Chunk.Types.{ChunkRun, Chunk, chunk_run_size, usable_base}

-- What the C library answers to the requests for a run and for its bitmap; 0 is NULL.
pub record RunGrant : Type 0 where
  pub run : ℕ
  pub bitmap : ℕ

-- A table with another list for one size class.
unfoldable pub with_list : ℕ → List ChunkRun → (ℕ → List ChunkRun) → ℕ → List ChunkRun
with_list c runs lists d = if d == c then runs else lists d

-- The run at the address of `r` becomes `r`.
unfoldable pub update_run : ChunkRun → List ChunkRun → List ChunkRun
update_run r [] = []
update_run r (x ∷ xs) = if x.address == r.address then r ∷ xs else x ∷ update_run r xs

-- `list_del` of the run at an address.
unfoldable pub remove_run : ℕ → List ChunkRun → List ChunkRun
remove_run address [] = []
remove_run address (x ∷ xs) = if x.address == address then xs else x ∷ remove_run address xs

unfoldable pub is_linked : ℕ → List ChunkRun → Bool
is_linked address [] = false
is_linked address (x ∷ xs) = x.address == address || is_linked address xs

-- The loop that counts the runs before the one at an address.
unfoldable pub run_position : ℕ → List ChunkRun → ℕ
run_position address [] = 0
run_position address (x ∷ xs) = if x.address == address then 0 else 1 + run_position address xs

unfoldable pub chunk_find_available_run : Chunk → ℕ → Option ChunkRun
chunk_find_available_run ch c = get_elem? (ch.runs_free c) 0

unfoldable pub new_run : RunGrant → ℕ → ChunkRun
new_run got c =
    let num_blocks = chunk_run_size / class_to_size c in
    record {
      address = got.run;
      bitmap_address = got.bitmap;
      size_class = c;
      block_size = class_to_size c;
      num_blocks = num_blocks;
      alloc_bitmap = replicate (bitmap_size num_blocks) 0;
      bitmap_size = bitmap_size num_blocks;
      free_blocks_count = num_blocks;
    }

-- The branch of `chunk_alloc_small` without an available run: the new run and the chunk with it,
-- or `none` for the returns of NULL.
unfoldable pub add_run : RunGrant → ℕ → Chunk → Option (ChunkRun × Chunk)
add_run got c ch =
    if got.run == 0 || class_to_size c == 0 || got.bitmap == 0
    then none
    else some (
      new_run got c,
      record ch {
        runs_free = with_list c (ch.runs_free c ++ (new_run got c ∷ [])) ch.runs_free;
        num_runs = u64 (ch.num_runs + 1);
      },
    )

-- The rest of `chunk_alloc_small`, for a run of the free list.
unfoldable pub take_block : ChunkRun → ℕ → Chunk → Chunk × ℕ
take_block run c ch =
    let block_idx = bitmap_find_first_clear run.alloc_bitmap run.num_blocks in
    let run' = record run {
      alloc_bitmap = bitmap_set run.alloc_bitmap block_idx;
      free_blocks_count = sub64 run.free_blocks_count 1;
    } in
    let run_idx = run_position run.address (ch.runs_free c) in
    let run_base = u64 (usable_base ch + run_idx * chunk_run_size) in
    let ptr = u64 (run_base + block_idx * run.block_size) in
    let allocated = u64 (ch.allocated_bytes + run.block_size) in
    if leb run.num_blocks block_idx
    then (ch, 0)
    else if run'.free_blocks_count == 0
    then (
      record ch {
        runs_free = with_list c (remove_run run.address (ch.runs_free c)) ch.runs_free;
        runs_full = with_list c (ch.runs_full c ++ (run' ∷ [])) ch.runs_full;
        allocated_bytes = allocated;
      },
      ptr,
    )
    else (
      record ch {
        runs_free = with_list c (update_run run' (ch.runs_free c)) ch.runs_free;
        allocated_bytes = allocated;
      },
      ptr,
    )

unfoldable pub chunk_alloc_small : RunGrant → ℕ → Chunk → Chunk × ℕ
chunk_alloc_small got c ch = elim (chunk_find_available_run ch c) [
  | some run ↦ take_block run c ch
  | none ↦ elim (add_run got c ch) [ none ↦ (ch, 0) | some (run, ch') ↦ take_block run c ch' ]
]

-- The run at a position of the two lists, the free runs first.
unfoldable pub find_run : ℕ → ℕ → Chunk → Option ChunkRun
find_run c run_idx ch =
    if ltb run_idx (length (ch.runs_free c))
    then get_elem? (ch.runs_free c) run_idx
    else get_elem? (ch.runs_full c) (run_idx - length (ch.runs_free c))

-- The end of `chunk_free_small`: the block is cleared, a run without a block in use is unlinked
-- and freed, and a run with one free block goes to the free list if its own link is empty. With
-- the chunk, the addresses that go to the C library's `free`.
unfoldable pub release_block : ChunkRun → ℕ → ℕ → Chunk → Chunk × List ℕ
release_block run block_idx c ch =
    let run' = record run {
      alloc_bitmap = bitmap_clear_bit run.alloc_bitmap block_idx;
      free_blocks_count = u64 (run.free_blocks_count + 1);
    } in
    let freed = u64 (ch.freed_bytes + run.block_size) in
    let alone =
      not (is_linked run.address (ch.runs_free c))
      && not (is_linked run.address (ch.runs_full c)) in
    let free' = update_run run' (ch.runs_free c) in
    let full' = update_run run' (ch.runs_full c) in
    if run'.free_blocks_count == run.num_blocks
    then (
      record ch {
        runs_free = with_list c (remove_run run.address (ch.runs_free c)) ch.runs_free;
        runs_full = with_list c (remove_run run.address (ch.runs_full c)) ch.runs_full;
        num_runs = sub64 ch.num_runs 1;
        freed_bytes = freed;
      },
      run.bitmap_address ∷ run.address ∷ [],
    )
    else (
      record ch {
        runs_free =
            with_list c
              (if run'.free_blocks_count == 1 && alone then free' ++ (run' ∷ []) else free')
              ch.runs_free;
        runs_full = with_list c full' ch.runs_full;
        freed_bytes = freed;
      },
      [],
    )

unfoldable pub chunk_free_small : ℕ → ℕ → Chunk → Chunk × List ℕ
chunk_free_small ptr c ch =
    let offset = sub64 ptr (usable_base ch) in
    let run_idx = offset / chunk_run_size in
    let block_offset = sub64 offset (u64 (run_idx * chunk_run_size)) in
    if ptr == 0 then (ch, []) else elim (find_run c run_idx ch) [
      | none ↦ (ch, [])
      | some run ↦
          let block_idx = block_offset / run.block_size in
          if run.block_size == 0
            || leb run.num_blocks block_idx
            || not (bitmap_get run.alloc_bitmap block_idx)
          then (ch, [])
          else release_block run block_idx c ch
    ]
