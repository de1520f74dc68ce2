-- ===== src/Chunk/Runs.antt =====
-- The runs of a chunk under `chunk_alloc_small` of src/memory/chunk.c.
use native.Mathlib.Decide.{dec_lt}
use native.Mathlib.Nat.{div-le_self}
use nomalloc.Prelude.{
  ℕ, ◌+◌, ◌*◌, ◌/◌, ◌≤◌, ◌<◌, ◌≡◌, ◌≢◌, ◌⊎◌, inl, inr, refl, sym, Bool, true, false, [], ◌∷◌, ◌++◌,
  none, some, leb, ◌==◌, ◌||◌, u64, sub64, arith, length, length-replicate, Bool-cases,
  Option-cases,
}
use nomalloc.SizeClass.{class_to_size}
use nomalloc.Bitmap.{bitmap_size, bitmap_get, bitmap_set, bitmap_find_first_clear}
use nomalloc.Bitmap.Scan.{IsFirstWith, bitmap_find_first-IsFirstWith}
use nomalloc.Chunk.Counts.{
  clear_count, clear_count-le, clear_count-set, clear_count-replicate, clear_count_none,
  length-bitmap_set,
}
use nomalloc.Chunk.Lists.{All, All-append, All-update_run, All-remove_run, All-head, All-with_list}
use nomalloc.Chunk.Types.{ChunkRun, Chunk}
use nomalloc.Chunk.Small.{
  RunGrant, with_list, chunk_find_available_run, new_run, add_run, take_block, chunk_alloc_small,
}

-- A run of size class `c`: its blocks lie in one run of bytes, the bitmap has a bit for each, and
-- the count is that of the clear bits.
pub record IsCountedRun (c : ℕ) (r : ChunkRun) : Type 0 where
  pub block : r.block_size ≡ class_to_size c
  pub blocks : r.num_blocks ≡ 4096 / class_to_size c
  pub room : r.num_blocks ≤ 64 * length r.alloc_bitmap
  pub counted : r.free_blocks_count ≡ clear_count r.alloc_bitmap r.num_blocks

-- A run in the free list has a free block, if it has any.
pub record IsOpenRun (c : ℕ) (r : ChunkRun) : Type 0 where
  pub run : IsCountedRun c r
  pub open_block : (0 < r.free_blocks_count) ⊎ (r.num_blocks ≡ 0)

pub record IsSoundChunk (ch : Chunk) : Type 0 where
  pub free_runs : (c : ℕ) → All (IsOpenRun c) (ch.runs_free c)
  pub full_runs : (c : ℕ) → All (IsCountedRun c) (ch.runs_full c)

module _ (c : ℕ) (run : ChunkRun) (ok : IsOpenRun c run) (there : 0 < 4096 / class_to_size c) where
  -- The block that is taken: the first clear one.
  abbrev taken : ℕ
  taken = bitmap_find_first_clear run.alloc_bitmap run.num_blocks

  pub blocks-le : run.num_blocks ≤ 4096
  blocks-le = omega (arith, ok.run.blocks, div-le_self 4096 (class_to_size c))

  taken-IsFirstWith : IsFirstWith false run.alloc_bitmap run.num_blocks taken
  taken-IsFirstWith =
      (bitmap_find_first-IsFirstWith run.alloc_bitmap run.num_blocks (omega (arith, blocks-le))).1

  some_free : 0 < run.free_blocks_count
  some_free = elim ok.open_block [ inl p ↦ p | inr z ↦ absurd (omega (arith, ok.run.blocks)) ]

  pub taken-lt : taken < run.num_blocks
  taken-lt = elim (dec_lt taken run.num_blocks) [
    | yes l ↦ l
    | no h ↦ absurd (
        omega (
          arith,
          some_free,
          ok.run.counted,
          clear_count_none run.alloc_bitmap run.num_blocks
              (λ k l. taken-IsFirstWith.before k (omega arith)),
        ))
  ]

  taken_clear : bitmap_get run.alloc_bitmap taken ≡ false
  taken_clear = taken-IsFirstWith.found taken-lt

  -- The run after the block is taken.
  abbrev run_after : ChunkRun
  run_after = record run {
    alloc_bitmap = bitmap_set run.alloc_bitmap taken;
    free_blocks_count = sub64 run.free_blocks_count 1;
  }

  run_after-IsCountedRun : IsCountedRun c run_after
  run_after-IsCountedRun = record {
    block = ok.run.block;
    blocks = ok.run.blocks;
    room = omega (arith, ok.run.room, length-bitmap_set run.alloc_bitmap taken);
    counted = omega (
      arith,
      some_free,
      blocks-le,
      ok.run.counted,
      clear_count-le run.alloc_bitmap run.num_blocks,
      clear_count-set run.alloc_bitmap taken run.num_blocks (omega (arith, ok.run.room, taken-lt))
          taken-lt taken_clear,
    );
  }

pub first-IsOpenRun :
    (c : ℕ) (run : ChunkRun) (ch : Chunk)
    → IsSoundChunk ch
    → chunk_find_available_run ch c ≡ some run
    → IsOpenRun c run
unfolding chunk_find_available_run
first-IsOpenRun c run ch all e = All-head (IsOpenRun c) (ch.runs_free c) run (all.free_runs c) e

-- The state after a step of a class whose first free run is `run`.
module _ (c : ℕ) (run : ChunkRun) (ch : Chunk) (ok : IsOpenRun c run) (all : IsSoundChunk ch) where
  take_none : 4096 / class_to_size c ≡ 0 → take_block run c ch ≡ (ch, 0)
  unfolding take_block
  take_none z = ground (arith, ok.run.blocks)

  take_block-IsSoundChunk : IsSoundChunk (take_block run c ch).0
  unfolding take_block
  take_block-IsSoundChunk = elim (dec_lt 0 (4096 / class_to_size c)) [
    | no z ↦ rw (take_none (omega arith)) all
    | yes there ↦
        let new = run_after c run ok there in
        let counted = run_after-IsCountedRun c run ok there in
        let room : leb run.num_blocks (taken c run ok there) ≡ false =
          ground (arith, taken-lt c run ok there) in
        elim (Bool-cases (new.free_blocks_count == 0)) [
          | inl e ↦
              rw (room, e)
                (record {
                  free_runs =
                      All-with_list IsOpenRun c _ _
                        (All-remove_run (IsOpenRun c) run.address _ (all.free_runs c))
                        all.free_runs;
                  full_runs =
                      All-with_list IsCountedRun c _ _
                        (All-append (IsCountedRun c) _ _ (all.full_runs c) (counted, tt))
                        all.full_runs;
                })
          | inr e ↦
              rw (room, e)
                (record {
                  free_runs =
                      All-with_list IsOpenRun c _ _
                        (All-update_run (IsOpenRun c) new _
                          (record { run = counted; open_block = inl (ground arith) })
                          (all.free_runs c))
                        all.free_runs;
                  full_runs = all.full_runs;
                })
        ]
  ]

module _ (got : RunGrant) (c : ℕ) (ch : Chunk) (all : IsSoundChunk ch) where
  new_run-IsOpenRun : class_to_size c ≢ 0 → IsOpenRun c (new_run got c)
  unfolding new_run bitmap_size
  new_run-IsOpenRun sized =
      let n = 4096 / class_to_size c in
      record {
        run = record {
          block = refl;
          blocks = refl;
          room = omega (
            arith,
            length-replicate {A = ℕ} (bitmap_size n) 0,
            div-le_self 4096 (class_to_size c),
          );
          counted = sym (clear_count-replicate (bitmap_size n) n);
        };
        open_block = elim (dec_lt 0 n) [ yes l ↦ inl l | no z ↦ inr (omega arith) ];
      }

  -- The chunk with the new run.
  abbrev with_run : Chunk
  with_run = record ch {
    runs_free = with_list c (ch.runs_free c ++ (new_run got c ∷ [])) ch.runs_free;
    num_runs = u64 (ch.num_runs + 1);
  }

  with_run-IsSoundChunk : class_to_size c ≢ 0 → IsSoundChunk with_run
  with_run-IsSoundChunk sized = record {
    free_runs =
        All-with_list IsOpenRun c _ _
          (All-append (IsOpenRun c) _ _ (all.free_runs c) (new_run-IsOpenRun sized, tt))
          all.free_runs;
    full_runs = all.full_runs;
  }

  refused : Bool
  refused = got.run == 0 || class_to_size c == 0 || got.bitmap == 0

  add_run_null : refused ≡ true → add_run got c ch ≡ none
  unfolding add_run refused
  add_run_null e = rw e refl

  add_run_granted :
      refused ≡ false → (add_run got c ch ≡ some (new_run got c, with_run)) × (class_to_size c ≢ 0)
  unfolding add_run refused
  add_run_granted e = (rw e refl, λ z. ground arith)

-- `chunk_alloc_small` keeps the runs of a chunk counted and well placed, whatever the class and the
-- answers to its requests for memory: each run of a size class has the block size of the class, as
-- many blocks as fit into 4096 bytes, a bit for each block, and a count of free blocks that is the
-- number of clear bits; and each run in the list of free runs has a free block or no blocks at all.
pub chunk_alloc_small-IsSoundChunk :
    (got : RunGrant) (c : ℕ) (ch : Chunk)
    → IsSoundChunk ch
    → IsSoundChunk (chunk_alloc_small got c ch).0
unfolding chunk_alloc_small
chunk_alloc_small-IsSoundChunk got c ch all = elim (Option-cases (chunk_find_available_run ch c)) [
  | inr (run, e) ↦
      rw (e, chunk_alloc_small)
        (take_block-IsSoundChunk c run ch (first-IsOpenRun c run ch all e) all)
  | inl e ↦ elim (Bool-cases (refused got c ch all)) [
    | inl r ↦ rw (e, chunk_alloc_small, add_run_null got c ch all r) all
    | inr r ↦
        let new = add_run_granted got c ch all r in
        rw (e, chunk_alloc_small, new.0)
          (take_block-IsSoundChunk c (new_run got c) _ (new_run-IsOpenRun got c ch all new.1)
            (with_run-IsSoundChunk got c ch all new.1))
  ]
]
