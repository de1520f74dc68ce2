-- ===== src/Chunk/Types.antt =====
-- The data of src/memory/chunk.h, and the creation and destruction of a chunk.
use nomalloc.Prelude.{
  ℕ, ◌+◌, ◌-◌, ◌*◌, Bool, false, ◌&&◌, List, [], Option, none, some, ltb, leb, ◌==◌, if◌then◌else◌,
  bit_and, u64, sub64, not64,
}
use nomalloc.Math.{align_up}
use nomalloc.Pages.{memory_alloc_aligned, memory_free_aligned}

abbrev pub chunk_align : ℕ
chunk_align = 2 * 1024 * 1024

abbrev pub chunk_run_size : ℕ
chunk_run_size = 4 * 1024

-- `address` is the address of the structure, and `bitmap_address` that of the array.
pub record ChunkRun : Type 0 where
  pub address : ℕ
  pub bitmap_address : ℕ
  pub size_class : ℕ
  pub block_size : ℕ
  pub num_blocks : ℕ
  pub alloc_bitmap : List ℕ
  pub bitmap_size : ℕ
  pub free_blocks_count : ℕ

-- The array `runs` is NULL from `chunk_create` on, and left out.
pub record Chunk : Type 0 where
  pub base_addr : ℕ
  pub size : ℕ
  pub usable_offset : ℕ
  pub is_large : Bool
  pub num_runs : ℕ
  pub runs_free : ℕ → List ChunkRun
  pub runs_full : ℕ → List ChunkRun
  pub allocated_bytes : ℕ
  pub freed_bytes : ℕ

-- `chunk_bytes` is `sizeof(struct chunk)`.
unfoldable pub chunk_create : ℕ → (ℕ → Option ℕ) → ℕ → ℕ → Option Chunk
chunk_create page_size mmap chunk_bytes size =
    let aligned_size = align_up size chunk_align in
    let usable_offset = align_up chunk_bytes 16 in
    elim (memory_alloc_aligned page_size mmap aligned_size chunk_align) [
      | none ↦ none
      | some mapping ↦
          if mapping.ptr == 0
          then none
          else some (record {
            base_addr = mapping.ptr;
            size = aligned_size;
            usable_offset = usable_offset;
            is_large = false;
            num_runs = 0;
            runs_free = λ c. [];
            runs_full = λ c. [];
            allocated_bytes = usable_offset;
            freed_bytes = 0;
          })
    ]

-- The range that is unmapped. There is nothing to free before: `runs` is NULL, and the runs in the
-- lists are not freed.
unfoldable pub chunk_destroy : ℕ → Chunk → Option (ℕ × ℕ)
chunk_destroy page_size ch = memory_free_aligned page_size ch.base_addr ch.size chunk_align

-- The address of the chunk that an object lies in.
unfoldable pub ptr_to_chunk : ℕ → ℕ
ptr_to_chunk ptr = bit_and ptr (not64 (chunk_align - 1))

unfoldable pub ptr_is_in_chunk : Chunk → ℕ → Bool
ptr_is_in_chunk ch addr = leb ch.base_addr addr && ltb addr (u64 (ch.base_addr + ch.size))

unfoldable pub chunk_get_available : Chunk → ℕ
chunk_get_available ch = sub64 ch.size ch.allocated_bytes

abbrev pub usable_base : Chunk → ℕ
usable_base ch = u64 (ch.base_addr + ch.usable_offset)
