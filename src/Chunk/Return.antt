-- ===== src/Chunk/Return.antt =====
-- The runs of a chunk under `chunk_free_small` of src/memory/chunk.c.
use native.Mathlib.Nat.{div-le_self}
use nomalloc.Prelude.{
  ℕ, zero, suc, ◌+◌, ◌*◌, ◌/◌, ◌<◌, ◌≡◌, inl, inr, subst, Bool, true, false, not, List, [], ◌∷◌,
  Option, none, some, leb, ltb, ◌==◌, ◌||◌, if◌then◌else◌, u64, sub64, arith, length, get_elem?,
  Bool-cases, Option-cases,
}
use nomalloc.SizeClass.{class_to_size}
use nomalloc.Bitmap.{bitmap_get, bitmap_clear_bit}
use nomalloc.Chunk.Types.{ChunkRun, Chunk, chunk_run_size, usable_base}
use nomalloc.Chunk.Small.{find_run, release_block, chunk_free_small}
use nomalloc.Chunk.Lists.{All, All-append, All-update_run, All-remove_run, All-with_list}
use nomalloc.Chunk.Counts.{clear_count-le, clear_count-clear, length-bitmap_clear_bit}
use nomalloc.Chunk.Runs.{IsCountedRun, IsOpenRun, IsSoundChunk}

All-map :
    (P Q : ChunkRun → Type 0)
    → ((r : ChunkRun) → P r → Q r)
    → (xs : List ChunkRun) → All P xs
    → All Q xs
All-map P Q f [] all = tt
All-map P Q f (x ∷ xs) all = (f x all.0, All-map P Q f xs all.1)

-- A property of a run, if there is one.
abbrev Holds : (ChunkRun → Type 0) → Option ChunkRun → Type 0
Holds P none = Unit {0}
Holds P (some r) = P r

All-get : (P : ChunkRun → Type 0) (xs : List ChunkRun) (i : ℕ) → All P xs → Holds P (get_elem? xs i)
All-get P [] i all = tt
All-get P (x ∷ xs) zero all = all.0
All-get P (x ∷ xs) (suc i) all = All-get P xs i all.1

find_run-IsCountedRun :
    (c i : ℕ) (ch : Chunk) → IsSoundChunk ch → Holds (IsCountedRun c) (find_run c i ch)
unfolding find_run
find_run-IsCountedRun c i ch sound = elim (Bool-cases (ltb i (length (ch.runs_free c)))) [
  | inl e ↦
      rw (find_run, e)
        (All-get (IsCountedRun c) (ch.runs_free c) i
          (All-map (IsOpenRun c) (IsCountedRun c) (λ r ok. ok.run) _ (sound.free_runs c)))
  | inr e ↦ rw (find_run, e) (All-get (IsCountedRun c) (ch.runs_full c) _ (sound.full_runs c))
]

All-if :
    (P : ChunkRun → Type 0) (b : Bool) (xs ys : List ChunkRun)
    → All P xs
    → All P ys
    → All P (if b then xs else ys)
All-if P true xs ys p q = p
All-if P false xs ys p q = q

module _ (c : ℕ) (run : ChunkRun) (i : ℕ) (ok : IsCountedRun c run) (inside : i < run.num_blocks)
    (taken : bitmap_get run.alloc_bitmap i ≡ true) where
  -- The run after the block is given back.
  abbrev given_back : ChunkRun
  given_back = record run {
    alloc_bitmap = bitmap_clear_bit run.alloc_bitmap i;
    free_blocks_count = u64 (run.free_blocks_count + 1);
  }

  given_back-IsCountedRun : IsCountedRun c given_back
  given_back-IsCountedRun = record {
    block = ok.block;
    blocks = ok.blocks;
    room = omega (arith, ok.room, length-bitmap_clear_bit run.alloc_bitmap i);
    counted = omega (
      arith,
      ok.blocks,
      div-le_self 4096 (class_to_size c),
      ok.counted,
      clear_count-le run.alloc_bitmap run.num_blocks,
      clear_count-clear run.alloc_bitmap i run.num_blocks (omega (arith, ok.room)) inside taken,
    );
  }

  given_back-IsOpenRun : IsOpenRun c given_back
  given_back-IsOpenRun = record {
    run = given_back-IsCountedRun;
    open_block = inl (
        omega (
          arith,
          ok.blocks,
          div-le_self 4096 (class_to_size c),
          ok.counted,
          clear_count-le run.alloc_bitmap run.num_blocks,
        ));
  }

  release_block-IsSoundChunk :
      (ch : Chunk) → IsSoundChunk ch → IsSoundChunk (release_block run i c ch).0
  unfolding release_block
  release_block-IsSoundChunk ch sound =
      let free' =
        All-update_run (IsOpenRun c) given_back (ch.runs_free c) given_back-IsOpenRun
          (sound.free_runs c) in
      let full' =
        All-update_run (IsCountedRun c) given_back (ch.runs_full c) given_back-IsCountedRun
          (sound.full_runs c) in
      elim (Bool-cases (u64 (run.free_blocks_count + 1) == run.num_blocks)) [
        | inl e ↦
            rw (release_block, e)
              (record {
                free_runs =
                    All-with_list IsOpenRun c _ _
                      (All-remove_run (IsOpenRun c) run.address _ (sound.free_runs c))
                      sound.free_runs;
                full_runs =
                    All-with_list IsCountedRun c _ _
                      (All-remove_run (IsCountedRun c) run.address _ (sound.full_runs c))
                      sound.full_runs;
              })
        | inr e ↦
            rw (release_block, e)
              (record {
                free_runs =
                    All-with_list IsOpenRun c _ _
                      (All-if (IsOpenRun c) _ _ _
                        (All-append (IsOpenRun c) _ _ free' (given_back-IsOpenRun, tt)) free')
                      sound.free_runs;
                full_runs = All-with_list IsCountedRun c _ _ full' sound.full_runs;
              })
      ]

-- `chunk_free_small` keeps the runs of a chunk counted, whatever pointer and class it is called
-- with: the count of free blocks stays the number of clear bits, and a run in the list of free
-- runs has a free block, or no blocks at all.
pub chunk_free_small-IsSoundChunk :
    (ptr c : ℕ) (ch : Chunk) → IsSoundChunk ch → IsSoundChunk (chunk_free_small ptr c ch).0
unfolding chunk_free_small
chunk_free_small-IsSoundChunk ptr c ch sound =
    let offset = sub64 ptr (usable_base ch) in
    let run_idx = offset / chunk_run_size in
    let block_offset = sub64 offset (u64 (run_idx * chunk_run_size)) in
    elim (Bool-cases (ptr == 0)) [
      | inl z ↦ rw (chunk_free_small, z) sound
      | inr z ↦ elim (Option-cases (find_run c run_idx ch)) [
        | inl n ↦ rw (chunk_free_small, z, n) sound
        | inr (run, n) ↦
            let ok = subst (Holds (IsCountedRun c)) n (find_run-IsCountedRun c run_idx ch sound) in
            let block_idx = block_offset / run.block_size in
            elim (Bool-cases (
              run.block_size == 0
              || leb run.num_blocks block_idx
              || not (bitmap_get run.alloc_bitmap block_idx))) [
                | inl t ↦ rw (chunk_free_small, z, n, t) sound
                | inr t ↦
                    rw (chunk_free_small, z, n, t)
                      (release_block-IsSoundChunk c run block_idx ok (ground arith) (ground arith)
                        ch sound)
              ]
      ]
    ]
