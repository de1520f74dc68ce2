-- ===== src/Chunk/Large.antt =====
-- Large objects: `chunk_alloc_large` and `chunk_free_large` of src/memory/chunk.c.
use native.Mathlib.Decide.{dec_lt}
use nomalloc.Prelude.{
  ℕ, ◌+◌, ◌^◌, ◌≤◌, ◌<◌, ◌≡◌, ◌⊎◌, inl, inr, refl, true, ltb, ◌==◌, if◌then◌else◌, u64, arith,
}
use nomalloc.Math.{align_up}
use nomalloc.Math.Align.{align_up_least}
use nomalloc.Chunk.Types.{Chunk, chunk_run_size, chunk_get_available}

unfoldable pub chunk_alloc_large : ℕ → Chunk → Chunk × ℕ
chunk_alloc_large size ch =
    let aligned_size = align_up size chunk_run_size in
    let ptr = u64 (ch.base_addr + ch.allocated_bytes) in
    if ltb (chunk_get_available ch) aligned_size then (ch, 0) else (
      record ch { allocated_bytes = u64 (ch.allocated_bytes + aligned_size); is_large = true },
      ptr,
    )

unfoldable pub chunk_free_large : ℕ → ℕ → Chunk → Chunk
chunk_free_large ptr size ch =
    if ptr == 0
    then ch
    else record ch { freed_bytes = u64 (ch.freed_bytes + align_up size chunk_run_size) }

-- The space that has been handed out lies within the chunk, and the chunk within the addresses.
pub record IsWithin (ch : Chunk) : Type 0 where
  pub handed_out : ch.allocated_bytes ≤ ch.size
  pub addresses : ch.base_addr + ch.size < 2 ^ 64
  pub placed : 0 < ch.base_addr

module _ (size : ℕ) (ch : Chunk) (ok : IsWithin ch) (small : size ≤ 2 ^ 63) where
  large_refused :
      ch.size < ch.allocated_bytes + align_up size 4096 → chunk_alloc_large size ch ≡ (ch, 0)
  unfolding chunk_alloc_large chunk_get_available
  large_refused over = ground (arith, align_up_least size 4096 (omega arith) (omega arith))

  large_granted :
      ch.allocated_bytes + align_up size 4096 ≤ ch.size
      → chunk_alloc_large size ch ≡ (
        record ch { allocated_bytes = ch.allocated_bytes + align_up size 4096; is_large = true },
        ch.base_addr + ch.allocated_bytes,
      )
  unfolding chunk_alloc_large chunk_get_available
  large_granted fits = ground (arith, align_up_least size 4096 (omega arith) (omega arith))

-- `chunk_alloc_large` of at most 2^63 bytes either leaves the chunk alone and returns NULL, because
-- the rounded size does not fit behind what has been handed out, or returns the end of what has
-- been handed out, with room for the size inside the chunk, and hands out no less than the size.
pub chunk_alloc_large-IsWithin :
    (size : ℕ) (ch : Chunk)
    → IsWithin ch
    → size ≤ 2 ^ 63
    → let (ch', ptr) = chunk_alloc_large size ch in
      IsWithin ch'
      × ((ch.size < ch.allocated_bytes + align_up size 4096) × (ptr ≡ 0) × (ch' ≡ ch)
          ⊎ ((ptr ≡ ch.base_addr + ch.allocated_bytes)
              × (ptr + size ≤ ch.base_addr + ch'.allocated_bytes)
              × (ch'.allocated_bytes ≤ ch.size)
              × (ch'.is_large ≡ true)))
chunk_alloc_large-IsWithin size ch ok small =
    let r = align_up_least size 4096 (omega arith) (omega arith) in
    elim (dec_lt ch.size (ch.allocated_bytes + align_up size 4096)) [
      | yes over ↦ rw (large_refused size ch ok small over) (ok, inl (over, refl, refl))
      | no fits ↦ rw (large_granted size ch ok small (omega arith)) (
        record { handed_out = omega arith; addresses = ok.addresses; placed = ok.placed },
        inr (refl, omega (arith, r.0), omega arith, refl),
      )
    ]
