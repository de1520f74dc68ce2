-- ===== src/Allocator/Free.antt =====
-- `allocator_free` of a block, and the counters (src/core/allocator.c).
use native.Mathlib.Decide.{ℕ_discrete}
use nomalloc.Prelude.{
  ℕ, ◌+◌, ◌-◌, ◌^◌, ◌≤◌, ◌<◌, ◌≡◌, ◌≢◌, refl, ap, ◌∙◌, true, false, some, arith, u64, sub64,
}
use nomalloc.Memory.{Agree}
use nomalloc.Libc.{Libc, Contract}
use nomalloc.Allocator.Header.{AllocHeader, get_header, get_header_found}
use nomalloc.Allocator.State.{Allocator}
use nomalloc.Allocator.Init.{Platform}
use nomalloc.Allocator.Ops.{
  State, allocator_malloc, free_ready, allocator_free, system_free, get_active_allocations,
  malloc_ready,
}
use nomalloc.Allocator.Blocks.{
  IsBlock, IsBlock-Agree, IsFresh, allocator_malloc-IsFresh, allocator_malloc-ready,
  malloc_ready_ok, malloc_ready_null, got, request, fresh_header,
}

-- The allocator is up and no initialisation is running.
pub record IsRunning {Heap : Type 0} (s : Allocator Heap) : Type 0 where
  pub up : s.initialized ≡ true
  pub settled : s.initializing ≡ false

module _ {L : Libc} (C : Contract L) where
  pub header_found :
      (s : State L) (p : ℕ) (h : AllocHeader)
      → IsBlock C s p h
      → get_header s.memory p ≡ some (p - 32)
  header_found s p h b =
      get_header_found s.memory p (omega (arith, b.before))
        (ap (λ (t : AllocHeader). t.magic) b.header ∙ b.magic)

  -- Freeing a block hands exactly the pointer recorded in its header to the C library, adds its
  -- requested size to the counter of freed bytes, and leaves every block with another raw pointer
  -- a block with the same bytes.
  pub allocator_free_block :
      (s : State L) (p : ℕ) (h : AllocHeader)
      → IsRunning s
      → IsBlock C s p h
      → (allocator_free L p s
          ≡ system_free L h.raw_ptr
              (record s { total_freed = u64 (s.total_freed + h.requested_size) }))
        × ((q : ℕ) (k : AllocHeader)
            → IsBlock C s q k
            → k.raw_ptr ≢ h.raw_ptr
            → IsBlock C (allocator_free L p s) q k
              × Agree s.memory (allocator_free L p s).memory q k.requested_size)
  unfolding allocator_free free_ready
  allocator_free_block s p h run b =
      let e : allocator_free L p s
          ≡ system_free L h.raw_ptr
              (record s { total_freed = u64 (s.total_freed + h.requested_size) }) =
        ground (arith, header_found s p h b, b.header, b.before, run.up, run.settled) in
      (
        e,
        rw e (λ q k old ne.
            let kept =
              Contract.free_keeps C h.raw_ptr s.heap s.memory k.raw_ptr k.size ne old.live in
            IsBlock-Agree C s
              (system_free L h.raw_ptr
                (record s { total_freed = u64 (s.total_freed + h.requested_size) }))
              q k old kept.0 kept.1),
      )

  cancels : (a f n : ℕ) → a < 2 ^ 64 → f < 2 ^ 64 → sub64 (u64 (a + n)) (u64 (f + n)) ≡ sub64 a f
  cancels a f n p q = omega arith

  made_then_freed :
      (env : Platform) (n : ℕ) (s : State L)
      → IsRunning s
      → s.total_allocated < 2 ^ 64
      → s.total_freed < 2 ^ 64
      → (r : State L × ℕ) → IsFresh C n s r
      → IsRunning r.0
      → r.0.total_freed ≡ s.total_freed
      → (allocator_free L r.1 r.0).heap ≡ (L.free (r.1 - 32) r.0.heap r.0.memory).heap
        × (get_active_allocations L (allocator_free L r.1 r.0) ≡ get_active_allocations L s)
  made_then_freed env n s run ba bf r fresh run' same =
      let e = (allocator_free_block r.0 r.1 (fresh_header C (r.1 - 32) n) run' fresh.block).0 in
      rw e (
        refl,
        rw (fresh.counted, same) (cancels s.total_allocated s.total_freed (request C n) ba bf),
      )

  malloc_ready_flags :
      (n : ℕ) (s : State L)
      → ((malloc_ready L n s).0.initialized ≡ s.initialized)
        × ((malloc_ready L n s).0.initializing ≡ s.initializing)
        × ((malloc_ready L n s).0.total_freed ≡ s.total_freed)
  malloc_ready_flags n s = elim (ℕ_discrete (got C n s).ptr 0) [
    | yes z ↦ rw (malloc_ready_null C n s z) (refl, refl, refl)
    | no ne ↦ rw (malloc_ready_ok C n s ne) (refl, refl, refl)
  ]

  -- `free` after `malloc` gives the C library back the very block that `malloc` took from it, and
  -- the number of active bytes is what it was before, also where the counters wrap.
  pub allocator_free-allocator_malloc :
      (env : Platform) (n : ℕ) (s : State L)
      → IsRunning s
      → n ≤ 2 ^ 64 - 64
      → s.total_allocated < 2 ^ 64
      → s.total_freed < 2 ^ 64
      → (allocator_malloc L env n s).1 ≢ 0
      → let r = allocator_malloc L env n s in
        ((allocator_free L r.1 r.0).heap ≡ (L.free (r.1 - 32) r.0.heap r.0.memory).heap)
        × (get_active_allocations L (allocator_free L r.1 r.0) ≡ get_active_allocations L s)
  allocator_free-allocator_malloc env n s run b ba bf p =
      let fresh = allocator_malloc-IsFresh C env n s run.up b p in
      let e = allocator_malloc-ready C env n s run.up in
      let flags : (r : State L × ℕ)
          → r ≡ malloc_ready L n s
          → IsRunning r.0 × (r.0.total_freed ≡ s.total_freed) =
        λ r q.
          let f = malloc_ready_flags n s in
          rw q (record { up = f.0 ∙ run.up; settled = f.1 ∙ run.settled }, f.2) in
      let f = flags (allocator_malloc L env n s) e in
      made_then_freed env n s run ba bf (allocator_malloc L env n s) fresh f.0 f.1
