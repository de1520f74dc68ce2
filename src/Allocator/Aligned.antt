-- ===== src/Allocator/Aligned.antt =====
-- `allocator_aligned_alloc`, and how it counts (src/core/allocator.c).
use native.Mathlib.Decide.{ℕ_discrete, dec_lt}
use nomalloc.Prelude.{
  ℕ, ◌+◌, ◌-◌, ◌%◌, ◌^◌, ◌≤◌, ◌<◌, ◌≡◌, ◌≢◌, inl, inr, refl, ◌∙◌, true, false, arith, u64, u32,
  sub64, ◌==◌, not, ◌||◌, pow-pos, pow_mono, Bool-cases,
}
use nomalloc.Math.{align_up, is_power_of_two}
use nomalloc.Math.Align.{align_up_least}
use nomalloc.Math.Powers.{is_power_of_two_iff}
use nomalloc.Memory.{Agree, Apart}
use nomalloc.Libc.{Libc, Contract, Answer}
use nomalloc.Allocator.Header.{
  AllocHeader, alloc_magic, write_header, read_header-write_header, write_header-Agree,
}
use nomalloc.Allocator.Init.{Platform, enter_ready}
use nomalloc.Allocator.Ops.{
  State, place_aligned, aligned_ready, allocator_aligned_alloc, allocator_free,
  get_active_allocations,
}
use nomalloc.Allocator.Blocks.{IsBlock, IsBlock-Agree, request}
use nomalloc.Allocator.Free.{IsRunning, allocator_free_block}

module _ {L : Libc} (C : Contract L) (s : State L) (alignment size : ℕ) (pos : 0 < alignment)
    (fits : size + alignment + 32 < 2 ^ 63) where
  open C use {Live, malloc_live, malloc_aligned, malloc_keeps, malloc_apart, free_keeps}

  abbrev alloc_size : ℕ
  alloc_size = size + alignment + 32

  abbrev a : Answer L.Heap
  a = L.malloc alloc_size s.heap s.memory

  abbrev target : ℕ
  target = align_up (a.ptr + 32) alignment

  abbrev new_header : AllocHeader
  new_header = record {
    raw_ptr = a.ptr;
    size = alloc_size;
    requested_size = size;
    magic = alloc_magic;
    flags = u32 alignment;
  }

  abbrev aligned_state : State L
  aligned_state = record s {
    heap = a.heap;
    memory = write_header a.memory (target - 32) new_header;
  }

  aligned_null :
      a.ptr ≡ 0
      → place_aligned L alignment size s ≡ (record s { heap = a.heap; memory = a.memory }, 0)
  unfolding place_aligned
  aligned_null z =
      let u : u64 (size + alignment + 32) ≡ alloc_size = omega arith in rw u (ground arith)

  module _ (ne : a.ptr ≢ 0) where
    placed : a.ptr + alloc_size ≤ 2 ^ 64
    placed = (malloc_aligned alloc_size s.heap s.memory ne).1

    target_bounds :
        (a.ptr + 32 ≤ target) × (target < a.ptr + 32 + alignment) × (target % alignment ≡ 0)
    target_bounds =
        let t = align_up_least (a.ptr + 32) alignment pos (omega (arith, placed)) in (t.0, t.1, t.2)

    aligned_ok : place_aligned L alignment size s ≡ (aligned_state, target)
    unfolding place_aligned
    aligned_ok =
        let w : u64 (size + alignment + 32) ≡ alloc_size = omega arith in
        let u : u64 (a.ptr + 32) ≡ a.ptr + 32 = omega (arith, placed) in
        let v : sub64 target 32 ≡ target - 32 = omega (arith, placed, target_bounds) in
        let test : (a.ptr == 0) ≡ false = ground arith in rw (w, u, v, test)

    aligned_block : IsBlock C aligned_state target new_header
    aligned_block =
        let t = target_bounds in
        let at = placed in
        record {
          header = read_header-write_header a.memory (target - 32) new_header (record {
            raw_fits = omega arith;
            size_fits = omega arith;
            requested_fits = omega arith;
            magic_fits = omega arith;
            flags_fits = omega arith;
          });
          magic = refl;
          raw_pos = omega arith;
          before = t.0;
          within = omega arith;
          space = at;
          live = malloc_live alloc_size s.heap s.memory ne;
        }

    aligned_others :
        (q : ℕ) (k : AllocHeader)
        → IsBlock C s q k
        → IsBlock C aligned_state q k × Agree s.memory aligned_state.memory q k.requested_size
    aligned_others q k old =
        let t = target_bounds in
        let kept = malloc_keeps alloc_size s.heap s.memory k.raw_ptr k.size old.live in
        let apart = malloc_apart alloc_size s.heap s.memory k.raw_ptr k.size ne old.live in
        let off : Apart k.raw_ptr k.size (target - 32) 32 = elim apart [
          | inl c ↦ inl (omega arith)
          | inr c ↦ inr (omega arith)
        ] in
        IsBlock-Agree C s aligned_state q k old kept.0 (λ x l r.
          write_header-Agree a.memory (target - 32) new_header k.raw_ptr k.size off x l r
          ∙ kept.1 x l r)

-- What a successful aligned allocation of `n` bytes leaves.
pub record IsAlignedBlock {L : Libc} (C : Contract L) (s : State L) (alignment n : ℕ)
    (r : State L × ℕ) : Type 0 where
  pub header : AllocHeader
  pub block : IsBlock C r.0 r.1 header
  pub requested : header.requested_size ≡ n
  pub recorded : header.flags ≡ u32 alignment
  pub aligned : r.1 % alignment ≡ 0
  pub others :
      (q : ℕ) (k : AllocHeader)
      → IsBlock C s q k
      → IsBlock C r.0 q k × Agree s.memory r.0.memory q k.requested_size
  pub uncounted : r.0.total_allocated ≡ s.total_allocated
  pub unfreed : r.0.total_freed ≡ s.total_freed
  pub flags : IsRunning s → IsRunning r.0

module _ {L : Libc} (C : Contract L) (env : Platform) where
  place_aligned-IsAlignedBlock :
      (s : State L) (alignment n : ℕ)
      → 0 < alignment
      → n + alignment + 32 < 2 ^ 63
      → (place_aligned L alignment n s).1 ≢ 0
      → IsAlignedBlock C s alignment n (place_aligned L alignment n s)
  place_aligned-IsAlignedBlock s alignment n pos fits =
      elim (ℕ_discrete (L.malloc (n + alignment + 32) s.heap s.memory).ptr 0) [
        | yes z ↦ rw (aligned_null C s alignment n pos fits z) (λ p. absurd (p refl))
        | no ne ↦ rw (aligned_ok C s alignment n pos fits ne) (λ p. record {
          header = new_header C s alignment n pos fits;
          block = aligned_block C s alignment n pos fits ne;
          requested = refl;
          recorded = refl;
          aligned = (target_bounds C s alignment n pos fits ne).2;
          others = aligned_others C s alignment n pos fits ne;
          uncounted = refl;
          unfreed = refl;
          flags = λ run. record { up = run.up; settled = run.settled };
        })
      ]

  power_accepted : (k : ℕ) → k < 64 → (not (is_power_of_two (2 ^ k)) || 2 ^ k == 0) ≡ false
  power_accepted k h =
      let t : is_power_of_two (2 ^ k) ≡ true =
        (is_power_of_two_iff (2 ^ k) (omega (arith, pow_mono k 63 (omega arith)))).1 (k, refl) in
      rw t (ground (arith, pow-pos k))

  -- `allocator_aligned_alloc` with a power of two, where the size (at least 1), the alignment and
  -- the 32 bytes of the header come to less than 2^63, either returns NULL or a block at a multiple
  -- of the alignment, with the low 32 bits of the alignment recorded in its header; every other
  -- block stays as it was, and neither counter changes.
  pub aligned_alloc-IsAlignedBlock :
      (s : State L) (k size : ℕ)
      → s.initialized ≡ true
      → request C size + 2 ^ k + 32 < 2 ^ 63
      → (allocator_aligned_alloc L env (2 ^ k) size s).1 ≢ 0
      → IsAlignedBlock C s (2 ^ k) (request C size) (allocator_aligned_alloc L env (2 ^ k) size s)
  unfolding allocator_aligned_alloc aligned_ready
  aligned_alloc-IsAlignedBlock s k size up fits =
      let small : k < 64 = elim (dec_lt k 64) [
        | yes l ↦ l
        | no l ↦ absurd (omega (arith, pow_mono 64 k))
      ] in
      rw (enter_ready L env s up, power_accepted k small)
        (place_aligned-IsAlignedBlock s (2 ^ k) (request C size) (pow-pos k) fits)

  -- An alignment that is no power of two is refused with NULL, and nothing changes.
  pub aligned_alloc_refused :
      (s : State L) (alignment size : ℕ)
      → s.initialized ≡ true
      → alignment < 2 ^ 64
      → ((k : ℕ) → alignment ≢ 2 ^ k)
      → allocator_aligned_alloc L env alignment size s ≡ (s, 0)
  unfolding allocator_aligned_alloc aligned_ready
  aligned_alloc_refused s alignment size up fits odd =
      elim (Bool-cases (is_power_of_two alignment)) [
        | inl t ↦ let (k, e) = (is_power_of_two_iff alignment fits).0 t in absurd (odd k e)
        | inr f ↦ rw (enter_ready L env s up, f)
      ]

  drifts :
      (a f n : ℕ)
      → a < 2 ^ 64
      → f < 2 ^ 64
      → n < 2 ^ 64
      → sub64 a (u64 (f + n)) ≡ sub64 (sub64 a f) n
  drifts a f n p q r = omega arith

  -- The counters do not balance on aligned blocks: an aligned allocation followed by its `free`
  -- lowers the number of active bytes by the size of the block, below zero by wrapping if nothing
  -- else was active.
  pub aligned_alloc_free_drifts :
      (s : State L) (k size : ℕ)
      → IsRunning s
      → request C size + 2 ^ k + 32 < 2 ^ 63
      → s.total_allocated < 2 ^ 64
      → s.total_freed < 2 ^ 64
      → (allocator_aligned_alloc L env (2 ^ k) size s).1 ≢ 0
      → let r = allocator_aligned_alloc L env (2 ^ k) size s in
        get_active_allocations L (allocator_free L r.1 r.0)
        ≡ sub64 (get_active_allocations L s) (request C size)
  aligned_alloc_free_drifts s k size run fits ba bf p =
      let r = allocator_aligned_alloc L env (2 ^ k) size s in
      let g = aligned_alloc-IsAlignedBlock s k size run.up fits p in
      let e = (allocator_free_block C r.0 r.1 g.header (g.flags run) g.block).0 in
      rw (e, g.uncounted, g.unfreed, g.requested)
        (drifts s.total_allocated s.total_freed (request C size) ba bf (omega arith))
