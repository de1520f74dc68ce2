-- ===== src/Allocator/Calloc.antt =====
-- `allocator_calloc` (src/core/allocator.c).
use nomalloc.Prelude.{
  ℕ, ◌+◌, ◌-◌, ◌*◌, ◌^◌, ◌≤◌, ◌<◌, ◌≡◌, ◌≢◌, inl, refl, ◌∙◌, true, false, arith, u64, if◌then◌else◌,
  ◌==◌,
}
use native.Mathlib.Decide.{ℕ_discrete}
use nomalloc.Memory.{memset, memset-inside, memset-Agree}
use nomalloc.Libc.{Libc, Contract}
use nomalloc.Allocator.Header.{AllocHeader, read_header-Agree}
use nomalloc.Allocator.Init.{Platform, enter_ready}
use nomalloc.Allocator.Ops.{State, allocator_malloc, calloc_ready, allocator_calloc}
use nomalloc.Allocator.Blocks.{IsBlock, allocator_malloc-IsFresh, request, fresh_header}

-- What a successful `calloc` leaves: a block of `n` bytes, all of them zero.
pub record IsZeroed {L : Libc} (C : Contract L) (n : ℕ) (r : State L × ℕ) : Type 0 where
  pub header : AllocHeader
  pub block : IsBlock C r.0 r.1 header
  pub requested : header.requested_size ≡ n
  pub zero_bytes : (i : ℕ) → i < n → r.0.memory (r.1 + i) ≡ 0

module _ {L : Libc} (C : Contract L) (env : Platform) where
  -- The number of bytes that `calloc` works with: the product in 64 bits, or 1.
  abbrev pub elements : ℕ → ℕ → ℕ
  elements nmemb size = request C (u64 (nmemb * size))

  calloc_calls :
      (nmemb size : ℕ) (s : State L)
      → s.initialized ≡ true
      → let r = allocator_malloc L env (elements nmemb size) s in
        allocator_calloc L env nmemb size s ≡ (
          if r.1 == 0
          then (r.0, 0)
          else (record (r.0) { memory = memset r.0.memory r.1 0 (elements nmemb size) }, r.1))
  unfolding allocator_calloc calloc_ready
  calloc_calls nmemb size s up = rw (enter_ready L env s up)

  cleared_block :
      (t : State L) (p n : ℕ) (h : AllocHeader)
      → h.requested_size ≡ n
      → IsBlock C t p h
      → IsZeroed C n (record t { memory = memset t.memory p 0 n }, p)
  cleared_block t p n h e b = record {
    header = h;
    block = record {
      header =
          read_header-Agree t.memory (memset t.memory p 0 n) (p - 32)
            (λ x l r. memset-Agree t.memory p 0 n (p - 32) 32 (inl (omega (arith, b.before))) x l r)
          ∙ b.header;
      magic = b.magic;
      raw_pos = b.raw_pos;
      before = b.before;
      within = b.within;
      space = b.space;
      live = b.live;
    };
    requested = e;
    zero_bytes = λ i l. memset-inside t.memory p 0 n i l;
  }

  -- If the product of the two arguments in 64 bits is at most 2^64 - 64, a successful `calloc`
  -- returns a block of that product (at least 1) whose bytes are all zero. The code does not test
  -- whether the product overflows, so the statement is about the wrapped product.
  pub allocator_calloc-IsZeroed :
      (nmemb size : ℕ) (s : State L)
      → s.initialized ≡ true
      → u64 (nmemb * size) ≤ 2 ^ 64 - 64
      → (allocator_calloc L env nmemb size s).1 ≢ 0
      → IsZeroed C (elements nmemb size) (allocator_calloc L env nmemb size s)
  allocator_calloc-IsZeroed nmemb size s up fits =
      let r = allocator_malloc L env (elements nmemb size) s in
      let n : elements nmemb size ≤ 2 ^ 64 - 64 = ground arith in
      let once : request C (elements nmemb size) ≡ elements nmemb size = ground arith in
      elim (ℕ_discrete r.1 0) [
        | yes z ↦
            let test : (r.1 == 0) ≡ true = ground arith in
            rw (calloc_calls nmemb size s up, test) (λ p. absurd (p refl))
        | no ne ↦
            let test : (r.1 == 0) ≡ false = ground arith in
            let fresh = allocator_malloc-IsFresh C env (elements nmemb size) s up n ne in
            rw (calloc_calls nmemb size s up, test)
              (λ p.
                cleared_block r.0 r.1 (elements nmemb size)
                  (fresh_header C (r.1 - 32) (elements nmemb size)) once fresh.block)
      ]

  -- Where the product overflows, `calloc` hands out fewer bytes than its arguments ask for.
  pub calloc_overflow :
      (nmemb size : ℕ) (s : State L)
      → s.initialized ≡ true
      → 2 ^ 64 ≤ nmemb * size
      → u64 (nmemb * size) ≤ 2 ^ 64 - 64
      → (allocator_calloc L env nmemb size s).1 ≢ 0
      → (h : AllocHeader) × IsBlock C
          (allocator_calloc L env nmemb size s).0
          (allocator_calloc L env nmemb size s).1
          h
        × (h.requested_size < nmemb * size)
  calloc_overflow nmemb size s up over fits p =
      let z = allocator_calloc-IsZeroed nmemb size s up fits p in
      let n : elements nmemb size ≤ 2 ^ 64 - 64 = ground arith in
      (z.header, z.block, omega (arith, z.requested))
