-- ===== src/Chunk/Overlap.antt =====
-- Where `chunk_alloc_small` of src/memory/chunk.c places its blocks.
use native.Mathlib.Decide.{dec_lt}
use native.Mathlib.Nat.{div-eq_of_lt, div-eq_of_lt-le, div-le_self, le-div_iff_mul-le}
use nomalloc.Prelude.{
  ℕ, ◌+◌, ◌*◌, ◌/◌, ◌≤◌, ◌<◌, ◌≡◌, ◌≢◌, inl, inr, refl, sym, ◌∙◌, true, false, List, [], ◌∷◌, ◌++◌,
  leb, ◌==◌, u64, sub64, arith, replicate, Bool-cases,
}
use nomalloc.SizeClass.{class_to_size}
use nomalloc.Bitmap.{bitmap_find_first_clear}
use nomalloc.Bitmap.Scan.{bitmap_find_first-IsFirstWith}
use nomalloc.Chunk.Types.{ChunkRun, Chunk, usable_base}
use nomalloc.Chunk.Small.{
  RunGrant, with_list, remove_run, run_position, chunk_find_available_run, new_run, add_run,
  take_block, chunk_alloc_small,
}
use nomalloc.Chunk.Counts.{bitmap_get-replicate}

-- The address of a block that `take_block` finds.
take_block_ptr :
    (run : ChunkRun) (c : ℕ) (ch : Chunk)
    → bitmap_find_first_clear run.alloc_bitmap run.num_blocks < run.num_blocks
    → (take_block run c ch).1
      ≡ u64 (
          u64 (usable_base ch + run_position run.address (ch.runs_free c) * 4096)
          + bitmap_find_first_clear run.alloc_bitmap run.num_blocks * run.block_size)
unfolding take_block
take_block_ptr run c ch l = ground arith

with_list_self :
    (c : ℕ) (runs : List ChunkRun) (lists : ℕ → List ChunkRun) → with_list c runs lists c ≡ runs
unfolding with_list
with_list_self c runs lists = ground arith

with_list_other :
    (c d : ℕ) (runs : List ChunkRun) (lists : ℕ → List ChunkRun)
    → d ≢ c
    → with_list c runs lists d ≡ lists d
unfolding with_list
with_list_other c d runs lists other = ground arith

take_block_frame :
    (run : ChunkRun) (c : ℕ) (ch : Chunk) (d : ℕ)
    → d ≢ c
    → let ch' = (take_block run c ch).0 in
      (ch'.runs_free d ≡ ch.runs_free d) × (usable_base ch' ≡ usable_base ch)
unfolding take_block
take_block_frame run c ch d other =
    elim (Bool-cases
      (leb run.num_blocks (bitmap_find_first_clear run.alloc_bitmap run.num_blocks))) [
        | inl e ↦ rw e (refl, refl)
        | inr e ↦ elim (Bool-cases (sub64 run.free_blocks_count 1 == 0)) [
          | inl e' ↦ rw (e, e') (with_list_other c d _ ch.runs_free other, refl)
          | inr e' ↦ rw (e, e') (with_list_other c d _ ch.runs_free other, refl)
        ]
      ]

run_position_first :
    (run : ChunkRun) (runs : List ChunkRun) → run_position run.address (run ∷ runs) ≡ 0
unfolding run_position
run_position_first run runs = ground arith

one_block : (c : ℕ) → 0 < class_to_size c → class_to_size c ≤ 4096 → 0 < 4096 / class_to_size c
one_block c sized fits =
    (le-div_iff_mul-le {k = class_to_size c} {x = 1} {y = 4096} sized).1 (omega arith)

find_first_zeros : (k n : ℕ) → 0 < n → n ≤ 4096 → bitmap_find_first_clear (replicate k 0) n ≡ 0
find_first_zeros k n positive small =
    let first = (bitmap_find_first-IsFirstWith (replicate k 0) n (omega arith)).1 in
    elim (dec_lt 0 (bitmap_find_first_clear (replicate k 0) n)) [
      | yes l ↦ absurd (first.before 0 l (bitmap_get-replicate k 0))
      | no z ↦ omega arith
    ]

take_block_last :
    (run : ChunkRun) (c : ℕ) (ch : Chunk)
    → bitmap_find_first_clear run.alloc_bitmap run.num_blocks < run.num_blocks
    → run.free_blocks_count ≡ 1
    → ch.runs_free c ≡ (run ∷ [])
    → let ch' = (take_block run c ch).0 in
      (ch'.runs_free c ≡ []) × (usable_base ch' ≡ usable_base ch)
unfolding take_block remove_run
take_block_last run c ch l one only =
    let room : leb run.num_blocks (bitmap_find_first_clear run.alloc_bitmap run.num_blocks)
        ≡ false =
      ground arith in
    let last : (sub64 run.free_blocks_count 1 == 0) ≡ true = ground arith in
    rw (room, last) (with_list_self c _ ch.runs_free ∙ rw only (ground arith), refl)

-- The C library grants the memory for a run and for its bitmap.
pub record IsGranted (got : RunGrant) : Type 0 where
  pub run : got.run ≢ 0
  pub bitmap : got.bitmap ≢ 0

module _ (got : RunGrant) (c : ℕ) (ch : Chunk) (granted : IsGranted got)
    (none_free : ch.runs_free c ≡ []) (sized : 0 < class_to_size c) where
  first_block :
      class_to_size c ≤ 4096
      → bitmap_find_first_clear (new_run got c).alloc_bitmap (new_run got c).num_blocks ≡ 0
  unfolding new_run
  first_block fits =
      find_first_zeros _ _ (one_block c sized fits)
        (omega (arith, div-le_self 4096 (class_to_size c)))

  -- The chunk with the new run.
  abbrev with_run : Chunk
  with_run = record ch {
    runs_free = with_list c (ch.runs_free c ++ (new_run got c ∷ [])) ch.runs_free;
    num_runs = u64 (ch.num_runs + 1);
  }

  fresh_run : chunk_alloc_small got c ch ≡ take_block (new_run got c) c with_run
  unfolding chunk_alloc_small chunk_find_available_run add_run
  fresh_run = ground (arith, granted.run, granted.bitmap)

  fresh_position : run_position got.run (with_run.runs_free c) ≡ 0
  unfolding new_run
  fresh_position =
      rw (none_free, with_list_self c (new_run got c ∷ []) ch.runs_free)
        (run_position_first (new_run got c) [])

  -- A class of at most 4096 bytes without a free run starts at the first byte of the chunk.
  pub fresh_ptr : class_to_size c ≤ 4096 → (chunk_alloc_small got c ch).1 ≡ usable_base ch
  unfolding new_run
  fresh_ptr fits =
      let first = first_block fits in
      let found : bitmap_find_first_clear (new_run got c).alloc_bitmap (new_run got c).num_blocks
          < (new_run got c).num_blocks =
        omega (arith, first, one_block c sized fits) in
      rw (fresh_run, take_block_ptr (new_run got c) c with_run found, fresh_position, first)
        (omega arith)

  -- A class of more than 4096 bytes without a free run gets a run without blocks.
  pub fresh_null : 4096 < class_to_size c → (chunk_alloc_small got c ch).1 ≡ 0
  unfolding new_run take_block
  fresh_null big = rw fresh_run (ground (arith, div-eq_of_lt big))

  -- What the block leaves of the chunk.
  pub fresh_frame :
      (d : ℕ)
      → d ≢ c
      → let ch' = (chunk_alloc_small got c ch).0 in
        (ch'.runs_free d ≡ ch.runs_free d) × (usable_base ch' ≡ usable_base ch)
  fresh_frame d other = rw fresh_run (
      let kept = take_block_frame (new_run got c) c with_run d other in
      (kept.0 ∙ with_list_other c d _ ch.runs_free other, kept.1))

  -- A run of one block is full at once.
  pub fresh_full :
      2048 < class_to_size c
      → class_to_size c ≤ 4096
      → let ch' = (chunk_alloc_small got c ch).0 in
        (ch'.runs_free c ≡ []) × (usable_base ch' ≡ usable_base ch)
  unfolding new_run bitmap_find_first_clear
  fresh_full big fits =
      let first = first_block fits in
      let one : 4096 / class_to_size c ≡ 1 =
        div-eq_of_lt-le {k = 1} (class_to_size c) (omega arith) (omega arith) in
      rw fresh_run (
        take_block_last (new_run got c) c with_run (omega (arith, first, one)) (omega (arith, one))
          (with_list_self c _ ch.runs_free ∙ rw none_free refl))

-- Two size classes of at most 4096 bytes without a free run in a chunk are given the same address,
-- if the C library grants the memory for their runs: the first byte of the chunk's usable space.
pub first_blocks_overlap :
    (got got' : RunGrant) (c d : ℕ) (ch : Chunk)
    → IsGranted got
    → IsGranted got'
    → ch.runs_free c ≡ []
    → ch.runs_free d ≡ []
    → d ≢ c
    → (0 < class_to_size c) × (class_to_size c ≤ 4096)
    → (0 < class_to_size d) × (class_to_size d ≤ 4096)
    → let (ch', ptr) = chunk_alloc_small got c ch in
      (ptr ≡ usable_base ch) × ((chunk_alloc_small got' d ch').1 ≡ ptr)
first_blocks_overlap got got' c d ch granted granted' none_c none_d other small_c small_d =
    let ptr = fresh_ptr got c ch granted none_c small_c.0 small_c.1 in
    let kept = fresh_frame got c ch granted none_c small_c.0 d other in
    let ch' = (chunk_alloc_small got c ch).0 in
    (ptr, fresh_ptr got' d ch' granted' (kept.0 ∙ none_d) small_d.0 small_d.1 ∙ kept.1 ∙ sym ptr)

-- A size class of more than 2048 and at most 4096 bytes without a free run is given the same
-- address twice in a row: its runs have one block, and the full run no longer counts in the address
-- of the next one.
pub one_block_reused :
    (got got' : RunGrant) (c : ℕ) (ch : Chunk)
    → IsGranted got
    → IsGranted got'
    → ch.runs_free c ≡ []
    → 2048 < class_to_size c
    → class_to_size c ≤ 4096
    → let (ch', ptr) = chunk_alloc_small got c ch in
      (ptr ≡ usable_base ch) × ((chunk_alloc_small got' c ch').1 ≡ ptr)
one_block_reused got got' c ch granted granted' none_free big fits =
    let sized : 0 < class_to_size c = omega arith in
    let ptr = fresh_ptr got c ch granted none_free sized fits in
    let kept = fresh_full got c ch granted none_free sized big fits in
    let ch' = (chunk_alloc_small got c ch).0 in
    (ptr, fresh_ptr got' c ch' granted' kept.0 sized fits ∙ kept.1 ∙ sym ptr)
