-- ===== src/Allocator/Realloc.antt =====
-- `allocator_realloc` of a block: the shrinking and the growing branch.
use nomalloc.Prelude.{ℕ, ◌-◌, ◌≤◌, ◌<◌, ◌≡◌, inr, refl, ap, ◌∙◌, true, arith, le→leb}
use nomalloc.Memory.{Agree}
use nomalloc.Libc.{Libc, Contract}
use nomalloc.Allocator.Header.{
  AllocHeader, write_requested_size, write_requested_size_lem, write_requested_size-Agree,
}
use nomalloc.Allocator.Init.{Platform, enter}
use nomalloc.Allocator.Ops.{State, realloc_block, realloc_ready, allocator_realloc}
use nomalloc.Allocator.Blocks.{IsBlock}
use nomalloc.Allocator.Free.{header_found}

module _ {L : Libc} (C : Contract L) (env : Platform) where
  -- `allocator_realloc` of a block to a size above 0 reaches the code for blocks.
  pub realloc-block :
      (s : State L) (p size : ℕ) (h : AllocHeader)
      → s.initialized ≡ true
      → 0 < size
      → IsBlock C s p h
      → allocator_realloc L env p size s ≡ realloc_block L p (p - 32) size s
  unfolding allocator_realloc realloc_ready enter
  realloc-block s p size h up pos b =
      let found = header_found C s p h b in rw up (ground (arith, found, b.before))

  -- Shrinking to a size above 0, or keeping the size, moves nothing: the pointer and the user's
  -- bytes that remain are the same, the block has the new size, and the C library's heap is as
  -- before.
  pub realloc_shrink :
      (s : State L) (p size : ℕ) (h : AllocHeader)
      → s.initialized ≡ true
      → 0 < size
      → size ≤ h.requested_size
      → IsBlock C s p h
      → let r = allocator_realloc L env p size s in
        (r.1 ≡ p)
        × IsBlock C r.0 p (record h { requested_size = size })
        × Agree s.memory r.0.memory p size
        × (r.0.heap ≡ s.heap)
  realloc_shrink s p size h up pos le b =
      rw (realloc-block s p size h up pos b, shrinks)
        (
          refl,
          record {
            header =
                write_requested_size_lem s.memory (p - 32) size
                  (omega (arith, b.within, b.space, b.before))
                ∙ ap (λ (t : AllocHeader). record t { requested_size = size }) b.header;
            magic = b.magic;
            raw_pos = b.raw_pos;
            before = b.before;
            within = omega (arith, b.within);
            space = b.space;
            live = b.live;
          },
          write_requested_size-Agree s.memory (p - 32) size p size (inr (omega (arith, b.before))),
          refl,
        )
    where
      shrinks :
          realloc_block L p (p - 32) size s
          ≡ (record s { memory = write_requested_size s.memory (p - 32) size }, p)
      shrinks = unfold realloc_block in rw (b.header, le→leb size h.requested_size le)
