-- ===== src/Posix/Outcomes.antt =====
-- What the entry points of src/api/posix_api.c give.
use native.Mathlib.Decide.{ℕ_discrete, dec_lt}
use nomalloc.Prelude.{
  ℕ, ◌+◌, ◌-◌, ◌^◌, ◌≤◌, ◌<◌, ◌≡◌, ◌≢◌, ◌⊎◌, refl, subst, ◌∙◌, inl, inr, true, false, not, ◌||◌,
  leb, ltb, ◌==◌, u64, arith, pow_mono, Bool-cases,
}
use nomalloc.Math.{is_power_of_two}
use nomalloc.Math.Powers.{is_power_of_two_iff}
use nomalloc.Memory.{Memory, Agree, Apart, load, load-store_self, store-Agree}
use nomalloc.Libc.{Libc, Contract}
use nomalloc.Allocator.Header.{AllocHeader}
use nomalloc.Allocator.Init.{Platform}
use nomalloc.Allocator.Ops.{State, malloc_total_size, allocator_realloc, allocator_aligned_alloc}
use nomalloc.Allocator.Blocks.{IsBlock, request, usable-IsBlock}
use nomalloc.Allocator.Aligned.{IsAlignedBlock, aligned_alloc-IsAlignedBlock}
use nomalloc.Allocator.Grow.{realloc_grow_keeps, realloc_grow_frees}
use nomalloc.Posix.{done, einval, enomem, posix_memalign, xallocx}

module _ {L : Libc} (C : Contract L) (env : Platform) where
  -- `posix_memalign` on an initialised allocator, for a place to store the pointer, a power of two
  -- that is at least 8, and a size above 0 that with the alignment and the 32 bytes of the header
  -- comes to less than 2^63. If the aligned allocation fails it returns ENOMEM and stores nothing.
  -- Otherwise it returns 0, having allocated a block of that size at a multiple of the alignment,
  -- with every other block as it was, and then stored the pointer in the 8 bytes of the place: the
  -- rest of the memory stays as the allocation left it.
  pub posix_memalign_outcome :
      (s : State L) (memptr k size : ℕ)
      → s.initialized ≡ true
      → memptr ≢ 0
      → 3 ≤ k
      → 0 < size
      → size + 2 ^ k + 32 < 2 ^ 63
      → let (t, ptr) = allocator_aligned_alloc L env (2 ^ k) size s in
        let (u, result) = posix_memalign L env memptr (2 ^ k) size s in
        ((ptr ≡ 0) × (result ≡ enomem) × (u ≡ t))
        ⊎ ((result ≡ done)
            × IsAlignedBlock C s (2 ^ k) size (t, ptr)
            × (u ≡ record t { memory = u.memory })
            × (load 8 u.memory memptr ≡ ptr)
            × ((b n : ℕ) → Apart b n memptr 8 → Agree t.memory u.memory b n))
  unfolding posix_memalign
  posix_memalign_outcome s memptr k size up there wide some_bytes fits =
      let small : k < 64 = elim (dec_lt k 64) [
        | yes l ↦ l
        | no l ↦ absurd (omega (arith, pow_mono 64 k))
      ] in
      let power : is_power_of_two (2 ^ k) ≡ true =
        (is_power_of_two_iff (2 ^ k) (omega (arith, pow_mono k 63 (omega arith)))).1 (k, refl) in
      let place : (memptr == 0) ≡ false = ground arith in
      let least : ltb (2 ^ k) 8 ≡ false = ground (arith, pow_mono 3 k wide) in
      let bytes : (size == 0) ≡ false = ground arith in
      let once : request C size ≡ size = ground arith in
      let r = allocator_aligned_alloc L env (2 ^ k) size s in
      elim (ℕ_discrete (r.1) 0) [
        | yes z ↦
            let test : (r.1 == 0) ≡ true = ground arith in
            inl (rw (posix_memalign, place, power, least, bytes, test) (z, refl, refl))
        | no ne ↦
            let test : (r.1 == 0) ≡ false = ground arith in
            let g =
              subst (λ n. IsAlignedBlock C s (2 ^ k) n r) once
                (aligned_alloc-IsAlignedBlock C env s k size up (omega arith) ne) in
            let word : r.1 < 256 ^ 8 = omega (arith, g.block.within, g.block.space) in
            inr (
              rw (posix_memalign, place, power, least, bytes, test)
                (
                  refl,
                  g,
                  refl,
                  load-store_self 8 (r.0).memory memptr (r.1) word,
                  λ b n apart. store-Agree 8 (r.0).memory memptr (r.1) b n apart,
                ))
      ]

  -- Whatever the place and the size, an alignment that is no power of two, or one below 8, is
  -- refused with EINVAL and changes nothing.
  pub posix_memalign_refused :
      (s : State L) (memptr alignment size : ℕ)
      → alignment < 2 ^ 64
      → ((k : ℕ) → 3 ≤ k → alignment ≢ 2 ^ k)
      → posix_memalign L env memptr alignment size s ≡ (s, einval)
  unfolding posix_memalign
  posix_memalign_refused s memptr alignment size word odd =
      let test : (not (is_power_of_two alignment) || ltb alignment 8) ≡ true =
        elim (Bool-cases (is_power_of_two alignment)) [
          | inl power ↦
              let (k, e) = (is_power_of_two_iff alignment word).0 power in
              elim (dec_lt k 3) [
                | yes low ↦ ground (arith, pow_mono k 2 (omega arith))
                | no high ↦ absurd (odd k (omega arith) e)
              ]
          | inr other ↦ ground arith
        ] in
      elim (Bool-cases (memptr == 0)) [
        | inl nowhere ↦ rw (posix_memalign, nowhere) refl
        | inr place ↦ rw (posix_memalign, place, test) refl
      ]

  -- `xallocx` is meant to resize in place, but moves: growing a block to at most 2^64 - 64 bytes, if
  -- the C library has memory, returns the new size, while the block now stands behind another
  -- header, at an address that the caller is not told; and the last call of the C library releases
  -- the old block, whose pointer the caller still holds.
  pub xallocx_moves :
      (s : State L) (p size extra : ℕ) (h : AllocHeader)
      → s.initialized ≡ true
      → IsBlock C s p h
      → p ≢ 0
      → h.requested_size < size + extra
      → size + extra ≤ 2 ^ 64 - 64
      → (allocator_realloc L env p (size + extra) s).1 ≢ 0
      → let (t, n) = xallocx L env p size extra s in
        let a = L.malloc (malloc_total_size (size + extra)) s.heap s.memory in
        (n ≡ size + extra)
        × ((k : AllocHeader) × IsBlock C t (a.ptr + 32) k
            × (k.requested_size ≡ size + extra)
            × (k.raw_ptr ≢ h.raw_ptr))
        × ((m : Memory) × (t.heap ≡ (L.free h.raw_ptr a.heap m).heap)
            × (t.memory ≡ (L.free h.raw_ptr a.heap m).memory))
  unfolding xallocx
  xallocx_moves s p size extra h up b not_null grows fits granted =
      let new : u64 (size + extra) ≡ size + extra = omega arith in
      let g = realloc_grow_keeps C env s p (size + extra) h up b grows fits in
      let (k, block, asked, elsewhere) = g.block granted in
      let there : (p == 0) ≡ false = ground arith in
      let old = usable-IsBlock C s p h b in
      let more : leb (size + extra) h.requested_size ≡ false = ground arith in
      let got : ((allocator_realloc L env p (size + extra) s).1 == 0) ≡ false = ground arith in
      let r = allocator_realloc L env p (size + extra) s in
      let size_there = usable-IsBlock C (r.0) (r.1) k block in
      let (at, freed) = realloc_grow_frees C env s p (size + extra) h up b grows fits granted in
      (
        rw (xallocx, there, new, old, more, got) (size_there ∙ asked),
        rw (xallocx, there, new, old, more, got)
            (k, subst (λ q. IsBlock C (r.0) q k) at block, asked, elsewhere),
        rw (xallocx, there, new, old, more, got) freed,
      )
