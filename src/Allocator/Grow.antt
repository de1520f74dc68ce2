-- ===== src/Allocator/Grow.antt =====
-- The growing branch of `allocator_realloc` (src/core/allocator.c).
use native.Mathlib.Decide.{ℕ_discrete}
use nomalloc.Prelude.{
  ℕ, ◌+◌, ◌-◌, ◌^◌, ◌≤◌, ◌<◌, ◌≡◌, ◌≢◌, inl, inr, refl, ap, ◌∙◌, true, false, arith, u64, ◌==◌,
}
use nomalloc.Memory.{Memory, Agree, Apart, memcpy, memcpy-inside, memcpy-Agree}
use nomalloc.Libc.{Libc, Contract, Answer}
use nomalloc.Allocator.Header.{
  AllocHeader, alloc_magic, read_header, write_header, read_header-write_header, write_header-Agree,
  read_header-Agree,
}
use nomalloc.Allocator.Init.{Platform}
use nomalloc.Allocator.Ops.{
  State, realloc_block, realloc_grow, allocator_realloc, malloc_total_size,
}
use nomalloc.Allocator.Sizes.{malloc_total_size_fits}
use nomalloc.Allocator.Blocks.{IsBlock, IsBlock-Agree}
use nomalloc.Allocator.Realloc.{realloc-block}

-- The block that a growing `realloc` allocates, before the old one is freed.
module _ {L : Libc} (C : Contract L) (s : State L) (p size : ℕ) (h : AllocHeader)
    (b : IsBlock C s p h) (grows : h.requested_size < size) (fits : size ≤ 2 ^ 64 - 64) where
  open C use {Live, malloc_live, malloc_aligned, malloc_keeps, malloc_apart, free_keeps}

  abbrev total : ℕ
  total = malloc_total_size size

  abbrev a : Answer L.Heap
  a = L.malloc total s.heap s.memory

  abbrev new_header : AllocHeader
  new_header = record {
    raw_ptr = a.ptr;
    size = total;
    requested_size = size;
    magic = alloc_magic;
    flags = 0;
  }

  abbrev copied : Memory
  copied = memcpy a.memory (a.ptr + 32) p h.requested_size

  abbrev written : Memory
  written = write_header copied a.ptr new_header

  abbrev freed : Answer L.Heap
  freed = L.free h.raw_ptr a.heap written

  abbrev moved : State L
  moved = record s {
    heap = freed.heap;
    memory = freed.memory;
    total_freed = u64 (s.total_freed + h.requested_size);
    total_allocated = u64 (s.total_allocated + size);
  }

  grow_null :
      a.ptr ≡ 0
      → realloc_grow L p (p - 32) size s ≡ (record s { heap = a.heap; memory = a.memory }, 0)
  unfolding realloc_grow
  grow_null z = ground arith

  null_keeps :
      (q : ℕ) (k : AllocHeader)
      → IsBlock C s q k
      → let t : State L = record s { heap = a.heap; memory = a.memory } in
        IsBlock C t q k × Agree s.memory t.memory q k.requested_size
  null_keeps q k old =
      let kept = malloc_keeps total s.heap s.memory k.raw_ptr k.size old.live in
      IsBlock-Agree C s (record s { heap = a.heap; memory = a.memory }) q k old kept.0 kept.1

  module _ (ne : a.ptr ≢ 0) where
    total_bounds : (size + 48 ≤ total) × (total < size + 64)
    total_bounds = malloc_total_size_fits size (omega arith) fits

    placed : (a.ptr + total ≤ 2 ^ 64)
    placed = (malloc_aligned total s.heap s.memory ne).1

    old-Apart : Apart h.raw_ptr h.size a.ptr total
    old-Apart = malloc_apart total s.heap s.memory h.raw_ptr h.size ne b.live

    -- The new block and the old one have no address in common.
    old_written : Agree s.memory written h.raw_ptr h.size
    old_written x l r =
        let t = total_bounds in
        write_header-Agree copied a.ptr new_header h.raw_ptr h.size
          (elim old-Apart [ inl c ↦ inl c | inr c ↦ inr (omega arith) ]) x l r
        ∙ memcpy-Agree a.memory (a.ptr + 32) p h.requested_size h.raw_ptr h.size
            (elim old-Apart [ inl c ↦ inl (omega arith) | inr c ↦ inr (omega arith) ]) x l r
        ∙ (malloc_keeps total s.heap s.memory h.raw_ptr h.size b.live).1 x l r

    old_header : read_header written (p - 32) ≡ h
    old_header =
        read_header-Agree s.memory written (p - 32)
          (λ x l r. old_written x (omega (arith, b.before)) (omega (arith, b.before, b.within)))
        ∙ b.header

    grow_moves : realloc_grow L p (p - 32) size s ≡ (moved, a.ptr + 32)
    unfolding realloc_grow
    grow_moves =
        let t = total_bounds in
        let u : u64 (a.ptr + 32) ≡ a.ptr + 32 = omega (arith, placed) in
        let test : (a.ptr == 0) ≡ false = ground arith in rw (b.header, u, test, old_header)

    raw_ne : a.ptr ≢ h.raw_ptr
    raw_ne e = elim old-Apart [
      | inl c ↦ omega (arith, b.before, b.within)
      | inr c ↦ omega (arith, total_bounds)
    ]

    new_kept : Live freed.heap a.ptr total × Agree written freed.memory a.ptr total
    new_kept =
        free_keeps h.raw_ptr a.heap written a.ptr total raw_ne
          (malloc_live total s.heap s.memory ne)

    grow_block : IsBlock C moved (a.ptr + 32) new_header
    grow_block =
        let t = total_bounds in
        let at = placed in
        let back : a.ptr + 32 - 32 ≡ a.ptr = omega arith in
        record {
          header =
              ap (read_header freed.memory) back
              ∙ read_header-Agree written freed.memory a.ptr (λ x l r. new_kept.1 x l (omega arith))
              ∙ read_header-write_header copied a.ptr new_header (record {
                raw_fits = omega arith;
                size_fits = omega arith;
                requested_fits = omega arith;
                magic_fits = omega arith;
                flags_fits = omega arith;
              });
          magic = refl;
          raw_pos = omega arith;
          before = omega arith;
          within = omega arith;
          space = at;
          live = new_kept.0;
        }

    grow_bytes : (i : ℕ) → i < h.requested_size → freed.memory (a.ptr + 32 + i) ≡ s.memory (p + i)
    grow_bytes i l =
        let t = total_bounds in
        new_kept.1 (a.ptr + 32 + i) (omega arith) (omega arith)
        ∙ write_header-Agree copied a.ptr new_header (a.ptr + 32) h.requested_size
            (inr (omega arith)) (a.ptr + 32 + i) (omega arith) (omega arith)
        ∙ memcpy-inside a.memory (a.ptr + 32) p h.requested_size i l
        ∙ (malloc_keeps total s.heap s.memory h.raw_ptr h.size b.live).1 (p + i)
            (omega (arith, b.before)) (omega (arith, b.within))

    grow_others :
        (q : ℕ) (k : AllocHeader)
        → IsBlock C s q k
        → k.raw_ptr ≢ h.raw_ptr
        → IsBlock C moved q k × Agree s.memory moved.memory q k.requested_size
    grow_others q k old other =
        let t = total_bounds in
        let kept = malloc_keeps total s.heap s.memory k.raw_ptr k.size old.live in
        let apart = malloc_apart total s.heap s.memory k.raw_ptr k.size ne old.live in
        let after = free_keeps h.raw_ptr a.heap written k.raw_ptr k.size other kept.0 in
        IsBlock-Agree C s moved q k old after.0 (λ x l r.
          after.1 x l r
          ∙ write_header-Agree copied a.ptr new_header k.raw_ptr k.size
              (elim apart [ inl c ↦ inl c | inr c ↦ inr (omega arith) ]) x l r
          ∙ memcpy-Agree a.memory (a.ptr + 32) p h.requested_size k.raw_ptr k.size
              (elim apart [ inl c ↦ inl (omega arith) | inr c ↦ inr (omega arith) ]) x l r
          ∙ kept.1 x l r)

-- What a growing `realloc` leaves: after a failure (NULL) the old block with its bytes; else a
-- new block of the new size that starts with the old bytes, and all blocks but the old one.
pub record IsGrown {L : Libc} (C : Contract L) (s : State L) (p size : ℕ) (h : AllocHeader)
    (r : State L × ℕ) : Type 0 where
  pub failed : r.1 ≡ 0 → IsBlock C r.0 p h × Agree s.memory r.0.memory p h.requested_size
  pub block :
      r.1 ≢ 0
      → (k : AllocHeader) × IsBlock C r.0 r.1 k
        × (k.requested_size ≡ size)
        × (k.raw_ptr ≢ h.raw_ptr)
  pub bytes : r.1 ≢ 0 → (i : ℕ) → i < h.requested_size → r.0.memory (r.1 + i) ≡ s.memory (p + i)
  pub others :
      (q : ℕ) (k : AllocHeader)
      → IsBlock C s q k
      → k.raw_ptr ≢ h.raw_ptr
      → IsBlock C r.0 q k × Agree s.memory r.0.memory q k.requested_size

grow_enters :
    {L : Libc} (C : Contract L) (s : State L) (p size : ℕ) (h : AllocHeader)
    → IsBlock C s p h
    → h.requested_size < size
    → realloc_block L p (p - 32) size s ≡ realloc_grow L p (p - 32) size s
unfolding realloc_block
grow_enters C s p size h b grows = rw b.header (ground arith)

-- Growing a block to at most 2^64 - 64 bytes: if it fails, the old block stays with its bytes;
-- otherwise there is a new block of the new size that starts with the bytes of the old one, and
-- every block but the old one stays with its bytes.
pub realloc_grow_keeps :
    {L : Libc} (C : Contract L) (env : Platform) (s : State L) (p size : ℕ) (h : AllocHeader)
    → s.initialized ≡ true
    → IsBlock C s p h
    → h.requested_size < size
    → size ≤ 2 ^ 64 - 64
    → IsGrown C s p size h (allocator_realloc L env p size s)
realloc_grow_keeps {L} C env s p size h up b grows fits =
    rw (realloc-block C env s p size h up (omega arith) b, grow_enters C s p size h b grows)
      (elim (ℕ_discrete (L.malloc (malloc_total_size size) s.heap s.memory).ptr 0) [
        | yes z ↦ rw (grow_null C s p size h b grows fits z) (record {
          failed = λ e. null_keeps C s p size h b grows fits p h b;
          block = λ n. absurd (n refl);
          bytes = λ n. absurd (n refl);
          others = λ q k old other. null_keeps C s p size h b grows fits q k old;
        })
        | no ne ↦ rw (grow_moves C s p size h b grows fits ne) (record {
          failed = λ e. absurd (omega arith);
          block = λ n. (
            new_header C s p size h b grows fits,
            grow_block C s p size h b grows fits ne,
            refl,
            raw_ne C s p size h b grows fits ne,
          );
          bytes = λ n. grow_bytes C s p size h b grows fits ne;
          others = grow_others C s p size h b grows fits ne;
        })
      ])

-- Where growing a block succeeds, the last call of the C library is the release of the old block,
-- on the heap that the allocation of the new one left.
pub realloc_grow_frees :
    {L : Libc} (C : Contract L) (env : Platform) (s : State L) (p size : ℕ) (h : AllocHeader)
    → s.initialized ≡ true
    → IsBlock C s p h
    → h.requested_size < size
    → size ≤ 2 ^ 64 - 64
    → (allocator_realloc L env p size s).1 ≢ 0
    → let a = L.malloc (malloc_total_size size) s.heap s.memory in
      ((allocator_realloc L env p size s).1 ≡ a.ptr + 32)
      × ((m : Memory) × ((allocator_realloc L env p size s).0.heap
            ≡ (L.free h.raw_ptr a.heap m).heap)
          × ((allocator_realloc L env p size s).0.memory ≡ (L.free h.raw_ptr a.heap m).memory))
realloc_grow_frees {L} C env s p size h up b grows fits =
    rw (realloc-block C env s p size h up (omega arith) b, grow_enters C s p size h b grows)
      (elim (ℕ_discrete (L.malloc (malloc_total_size size) s.heap s.memory).ptr 0) [
        | yes z ↦ rw (grow_null C s p size h b grows fits z) (λ n. absurd (n refl))
        | no ne ↦
            rw (grow_moves C s p size h b grows fits ne)
              (λ n. (refl, (written C s p size h b grows fits, refl, refl)))
      ])
