-- ===== src/Allocator/Blocks.antt =====
-- Blocks of the allocator of src/core/allocator.c, and `allocator_malloc`.
use native.Mathlib.Decide.{ℕ_discrete}
use nomalloc.Prelude.{
  ℕ, ◌+◌, ◌-◌, ◌%◌, ◌^◌, ◌≤◌, ◌<◌, ◌≡◌, ◌≢◌, inl, inr, refl, ap, subst, ◌∙◌, true, some, arith, u64,
  if◌then◌else◌, ◌==◌,
}
use nomalloc.Memory.{Agree, Apart}
use nomalloc.Libc.{Libc, Contract, Answer}
use nomalloc.Allocator.Header.{
  AllocHeader, alloc_magic, write_header, read_header, add_header, get_header,
  read_header-write_header, write_header-Agree, read_header-Agree, get_header_found,
}
use nomalloc.Allocator.Init.{Platform, enter}
use nomalloc.Allocator.Ops.{
  State, malloc_total_size, malloc_ready, allocator_malloc, allocator_malloc_usable_size,
}
use nomalloc.Allocator.Sizes.{malloc_total_size_fits}

-- `p` is a block handed to the user: its header is in place 32 bytes before it, and it and the
-- header lie in a live block of the C library.
pub record IsBlock {L : Libc} (C : Contract L) (s : State L) (p : ℕ) (h : AllocHeader)
    : Type 0 where
  pub header : read_header s.memory (p - 32) ≡ h
  pub magic : h.magic ≡ alloc_magic
  pub raw_pos : 0 < h.raw_ptr
  pub before : h.raw_ptr + 32 ≤ p
  pub within : p + h.requested_size ≤ h.raw_ptr + h.size
  pub space : h.raw_ptr + h.size ≤ 2 ^ 64
  pub live : Contract.Live C s.heap h.raw_ptr h.size

-- The two regions of a block, header and user bytes, read the same in another state.
pub IsBlock-Agree :
    {L : Libc} (C : Contract L) (s s' : State L) (p : ℕ) (h : AllocHeader)
    → IsBlock C s p h
    → Contract.Live C s'.heap h.raw_ptr h.size
    → Agree s.memory s'.memory h.raw_ptr h.size
    → IsBlock C s' p h × Agree s.memory s'.memory p h.requested_size
IsBlock-Agree C s s' p h b live same = (
  record {
    header =
        read_header-Agree s.memory s'.memory (p - 32)
          (λ x l r. same x (omega (arith, b.before)) (omega (arith, b.within, b.before)))
        ∙ b.header;
    magic = b.magic;
    raw_pos = b.raw_pos;
    before = b.before;
    within = b.within;
    space = b.space;
    live = live;
  },
  λ x l r. same x (omega (arith, b.before)) (omega (arith, b.within)),
)

module _ {L : Libc} (C : Contract L) where
  open C use {Live, malloc_live, malloc_aligned, malloc_keeps, malloc_apart, free_keeps}

  abbrev pub request : ℕ → ℕ
  request n = if n == 0 then 1 else n

  abbrev pub got : ℕ → State L → Answer L.Heap
  got n s = L.malloc (malloc_total_size (request n)) s.heap s.memory

  -- The header that `allocator_malloc` writes.
  abbrev pub fresh_header : ℕ → ℕ → AllocHeader
  fresh_header raw n = record {
    raw_ptr = raw;
    size = malloc_total_size (request n);
    requested_size = request n;
    magic = alloc_magic;
    flags = 0;
  }

  pub malloc_ready_null :
      (n : ℕ) (s : State L)
      → (got n s).ptr ≡ 0
      → malloc_ready L n s ≡ (record s { heap = (got n s).heap; memory = (got n s).memory }, 0)
  unfolding malloc_ready
  malloc_ready_null n s e = ground arith

  pub malloc_ready_ok :
      (n : ℕ) (s : State L)
      → (got n s).ptr ≢ 0
      → malloc_ready L n s ≡ (
        record s {
          heap = (got n s).heap;
          memory = write_header (got n s).memory (got n s).ptr (fresh_header (got n s).ptr n);
          total_allocated = u64 (s.total_allocated + request n);
        },
        u64 ((got n s).ptr + 32),
      )
  unfolding malloc_ready add_header
  malloc_ready_ok n s e = ground arith

  -- What is known after a `malloc` that found memory.
  pub record IsFresh (n : ℕ) (s : State L) (r : State L × ℕ) : Type 0 where
    pub block : IsBlock C r.0 r.1 (fresh_header (r.1 - 32) n)
    pub aligned : r.1 % 16 ≡ 0
    pub usable : allocator_malloc_usable_size L r.1 r.0 ≡ request n
    pub counted : r.0.total_allocated ≡ u64 (s.total_allocated + request n)
    pub others :
        (q : ℕ) (k : AllocHeader)
        → IsBlock C s q k
        → IsBlock C r.0 q k × Agree s.memory r.0.memory q k.requested_size

  pub usable-IsBlock :
      (s : State L) (p : ℕ) (h : AllocHeader)
      → IsBlock C s p h
      → allocator_malloc_usable_size L p s ≡ h.requested_size
  unfolding allocator_malloc_usable_size
  usable-IsBlock s p h b =
      let found : get_header s.memory p ≡ some (p - 32) =
        get_header_found s.memory p (omega (arith, b.before))
          (ap (λ (t : AllocHeader). t.magic) b.header ∙ b.magic) in
      rw found (ground (arith, b.before, b.header))

  -- The state after a `malloc` that found memory.
  abbrev pub made : ℕ → State L → State L
  made n s = record s {
    heap = (got n s).heap;
    memory = write_header (got n s).memory (got n s).ptr (fresh_header (got n s).ptr n);
    total_allocated = u64 (s.total_allocated + request n);
  }

  module _ (n : ℕ) (s : State L) (b : n ≤ 2 ^ 64 - 64) (ne : (got n s).ptr ≢ 0) where
    abbrev total : ℕ
    total = malloc_total_size (request n)

    total_bounds : (request n + 48 ≤ total) × (total < request n + 64)
    total_bounds = malloc_total_size_fits (request n) (ground arith) (ground arith)

    placed : ((got n s).ptr % 16 ≡ 0) × ((got n s).ptr + total ≤ 2 ^ 64)
    placed = malloc_aligned total s.heap s.memory ne

    made_block : IsBlock C (made n s) ((got n s).ptr + 32) (fresh_header (got n s).ptr n)
    made_block =
        let t = total_bounds in
        let at = placed in
        let back : (got n s).ptr + 32 - 32 ≡ (got n s).ptr = omega arith in
        record {
          header =
              ap (read_header (made n s).memory) back
              ∙ read_header-write_header (got n s).memory (got n s).ptr
                  (fresh_header (got n s).ptr n)
                  (record {
                    raw_fits = omega arith;
                    size_fits = omega arith;
                    requested_fits = omega arith;
                    magic_fits = omega arith;
                    flags_fits = omega arith;
                  });
          magic = refl;
          raw_pos = omega arith;
          before = omega arith;
          within = omega arith;
          space = at.1;
          live = malloc_live total s.heap s.memory ne;
        }

    made_others :
        (q : ℕ) (k : AllocHeader)
        → IsBlock C s q k
        → IsBlock C (made n s) q k × Agree s.memory (made n s).memory q k.requested_size
    made_others q k old =
        let kept = malloc_keeps total s.heap s.memory k.raw_ptr k.size old.live in
        let apart = malloc_apart total s.heap s.memory k.raw_ptr k.size ne old.live in
        let t = total_bounds in
        let off : Apart k.raw_ptr k.size (got n s).ptr 32 = elim apart [
          | inl c ↦ inl c
          | inr c ↦ inr (omega arith)
        ] in
        IsBlock-Agree C s (made n s) q k old kept.0 (λ x l r.
          write_header-Agree (got n s).memory (got n s).ptr (fresh_header (got n s).ptr n) k.raw_ptr
            k.size off x l r
          ∙ kept.1 x l r)

    IsFresh-made : IsFresh n s (made n s, u64 ((got n s).ptr + 32))
    IsFresh-made =
        let t = total_bounds in
        let at = placed in
        let u : (got n s).ptr + 32 ≡ u64 ((got n s).ptr + 32) = omega arith in
        let back : (got n s).ptr ≡ (got n s).ptr + 32 - 32 = omega arith in
        subst (λ x. IsFresh n s (made n s, x)) u
          (record {
            block =
                subst (λ x. IsBlock C (made n s) ((got n s).ptr + 32) (fresh_header x n)) back
                  made_block;
            aligned = omega arith;
            usable =
                usable-IsBlock (made n s) ((got n s).ptr + 32) (fresh_header (got n s).ptr n)
                  made_block;
            counted = refl;
            others = made_others;
          })

  pub allocator_malloc-ready :
      (env : Platform) (n : ℕ) (s : State L)
      → s.initialized ≡ true
      → allocator_malloc L env n s ≡ malloc_ready L n s
  unfolding allocator_malloc enter
  allocator_malloc-ready env n s i = rw i

  -- On an initialised allocator `allocator_malloc` of at most 2^64 - 64 bytes either returns NULL
  -- or a block: its header is in place inside a live block of the C library that also holds the
  -- bytes asked for (at least one), the pointer is a multiple of 16, `malloc_usable_size` gives
  -- the request, the request is added to the counter, and every other block is a block as before,
  -- with the same bytes.
  pub allocator_malloc-IsFresh :
      (env : Platform) (n : ℕ) (s : State L)
      → s.initialized ≡ true
      → n ≤ 2 ^ 64 - 64
      → (allocator_malloc L env n s).1 ≢ 0
      → IsFresh n s (allocator_malloc L env n s)
  allocator_malloc-IsFresh env n s i b =
      rw (allocator_malloc-ready env n s i) (elim (ℕ_discrete (got n s).ptr 0) [
        | yes z ↦ rw (malloc_ready_null n s z) (λ p. absurd (p refl))
        | no ne ↦ rw (malloc_ready_ok n s ne) (λ p. IsFresh-made n s b ne)
      ])

  -- On an initialised allocator `allocator_malloc` of at most 2^64 - 64 bytes fails only if the C
  -- library does: it returns NULL where that has no memory for the total, and otherwise the
  -- address 32 bytes above the C library's.
  pub allocator_malloc_ptr :
      (env : Platform) (n : ℕ) (s : State L)
      → s.initialized ≡ true
      → n ≤ 2 ^ 64 - 64
      → let raw_ptr = (L.malloc (malloc_total_size (request n)) s.heap s.memory).ptr in
        (allocator_malloc L env n s).1 ≡ (if raw_ptr == 0 then 0 else raw_ptr + 32)
  allocator_malloc_ptr env n s i b =
      rw (allocator_malloc-ready env n s i) (elim (ℕ_discrete (got n s).ptr 0) [
        | yes z ↦ rw (malloc_ready_null n s z) (ground (arith, z))
        | no ne ↦
            let at = placed n s b ne in
            let t = total_bounds n s b ne in rw (malloc_ready_ok n s ne) (ground (arith, ne, at, t))
      ])
