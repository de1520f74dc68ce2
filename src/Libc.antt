-- ===== src/Libc.antt =====
-- The C library under the allocator: `__libc_malloc`, `__libc_free`, `__libc_calloc` and
-- `__libc_realloc` are not code of the repository, and enter as a parameter. `Contract` is what
-- their documentation promises and the allocator relies on.
use nomalloc.Prelude.{
  ℕ, ◌+◌, ◌*◌, ◌/◌, ◌%◌, ◌^◌, ◌≤◌, ◌≡◌, ◌≢◌, inl, refl, arith, leb, if◌then◌else◌,
}
use nomalloc.Memory.{Memory, Agree, Apart}

-- What a call that may allocate leaves: a pointer (0 is NULL), the heap and the memory.
pub record Answer (Heap : Type 0) : Type 0 where
  pub ptr : ℕ
  pub heap : Heap
  pub memory : Memory

pub record Libc : Type 1 where
  pub Heap : Type 0
  pub malloc : ℕ → Heap → Memory → Answer Heap
  pub free : ℕ → Heap → Memory → Answer Heap
  pub calloc : ℕ → ℕ → Heap → Memory → Answer Heap
  pub realloc : ℕ → ℕ → Heap → Memory → Answer Heap

-- `malloc` gives NULL, or a block of the size asked for that is aligned to 16, does not wrap
-- round the address space and lies apart from every live block; `free` ends the life of one
-- block. Neither touches the bytes of a block that stays live.
pub record Contract (L : Libc) : Type 1 where
  pub Live : L.Heap → ℕ → ℕ → Type 0
  pub malloc_live :
      (n : ℕ) (h : L.Heap) (m : Memory)
      → (L.malloc n h m).ptr ≢ 0
      → Live (L.malloc n h m).heap (L.malloc n h m).ptr n
  pub malloc_aligned :
      (n : ℕ) (h : L.Heap) (m : Memory)
      → (L.malloc n h m).ptr ≢ 0
      → ((L.malloc n h m).ptr % 16 ≡ 0) × ((L.malloc n h m).ptr + n ≤ 2 ^ 64)
  pub malloc_keeps :
      (n : ℕ) (h : L.Heap) (m : Memory) (q k : ℕ)
      → Live h q k
      → Live (L.malloc n h m).heap q k × Agree m (L.malloc n h m).memory q k
  pub malloc_apart :
      (n : ℕ) (h : L.Heap) (m : Memory) (q k : ℕ)
      → (L.malloc n h m).ptr ≢ 0
      → Live h q k
      → Apart q k (L.malloc n h m).ptr n
  pub free_keeps :
      (p : ℕ) (h : L.Heap) (m : Memory) (q k : ℕ)
      → q ≢ p
      → Live h q k
      → Live (L.free p h m).heap q k × Agree m (L.free p h m).memory q k

-- A library that meets the contract: it hands out ever higher units of 16 bytes and never gives
-- one back.
unfoldable pub bump : ℕ → ℕ → Memory → Answer ℕ
bump n h m =
    if leb (16 * (h + n / 16 + 1)) (2 ^ 64)
    then record { ptr = 16 * h; heap = h + n / 16 + 1; memory = m }
    else record { ptr = 0; heap = h; memory = m }

abbrev pub bump_libc : Libc
bump_libc = record {
  Heap = ℕ;
  malloc = bump;
  free = λ p h m. record { ptr = 0; heap = h; memory = m };
  calloc = λ n k h m. bump (n * k) h m;
  realloc = λ p n h m. bump n h m;
}

module _ (n h : ℕ) (m : Memory) where
  pub bump_live : (bump n h m).ptr ≢ 0 → (bump n h m).ptr + n ≤ 16 * (bump n h m).heap
  unfolding bump
  bump_live p = ground arith

  pub bump_aligned :
      (bump n h m).ptr ≢ 0 → ((bump n h m).ptr % 16 ≡ 0) × ((bump n h m).ptr + n ≤ 2 ^ 64)
  unfolding bump
  bump_aligned b = ground arith

  pub bump_keeps :
      (q k : ℕ)
      → q + k ≤ 16 * h
      → (q + k ≤ 16 * (bump n h m).heap) × Agree m (bump n h m).memory q k
  unfolding bump
  bump_keeps q k l = (ground arith, λ x p b. ground arith)

  pub bump_apart : (q k : ℕ) → (bump n h m).ptr ≢ 0 → q + k ≤ 16 * h → q + k ≤ (bump n h m).ptr
  unfolding bump
  bump_apart q k p l = ground arith

abbrev pub bump_contract : Contract bump_libc
bump_contract = record {
  Live = λ h p n. p + n ≤ 16 * h;
  malloc_live = λ n h m p. bump_live n h m p;
  malloc_aligned = λ n h m p. bump_aligned n h m p;
  malloc_keeps = λ n h m q k l. bump_keeps n h m q k l;
  malloc_apart = λ n h m q k p l. inl (bump_apart n h m q k p l);
  free_keeps = λ p h m q k d l. (l, λ x a b. refl);
}
