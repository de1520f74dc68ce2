-- ===== src/HugePages/Balance.antt =====
-- What a call of `hugepage_free` takes back of what `hugepage_alloc` of src/os/hugepages.c gave.
use nomalloc.Prelude.{
  ℕ, ◌+◌, ◌*◌, ◌≤◌, ◌<◌, ◌≡◌, ◌≢◌, refl, ap, sym, subst, ◌∙◌, inl, inr, true, false, not, ◌||◌, ◌∷◌,
  some, leb, ◌==◌, u64, sub64, arith, Bool-cases,
}
use nomalloc.HugePages.{
  HugepageManager, System, hugepage_2mb_size, hugepage_1gb_size, hugepage_align_size,
  hugepage_num_pages_needed, hugepage_get_active_bytes,
}
use nomalloc.HugePages.Ops.{hugepage_alloc, hugepage_alloc_2mb, hugepage_alloc_1gb, hugepage_free}
use nomalloc.HugePages.Rounding.{pages_size, pages_ne_zero}

-- A manager with this many more bytes allocated.
abbrev pub Granted : HugepageManager → HugepageManager → ℕ → Type 0
Granted s s' n =
    (s'.stats.total_allocated_bytes ≡ u64 (s.stats.total_allocated_bytes + n))
    × (s'.stats.total_freed_bytes ≡ s.stats.total_freed_bytes)
    × (s'.unmapped ≡ s.unmapped)

module _ (sys : System) (s : HugepageManager) (ready : s.initialized ≡ true) where
  alloc_giant :
      (size : ℕ)
      → leb hugepage_1gb_size (hugepage_align_size size) ≡ true
      → hugepage_alloc sys size s
        ≡ hugepage_alloc_1gb sys (hugepage_num_pages_needed size hugepage_1gb_size) s
  unfolding hugepage_alloc
  alloc_giant size giant = simp (hugepage_alloc, ready, giant)

  pub alloc_big :
      (size : ℕ)
      → leb hugepage_1gb_size (hugepage_align_size size) ≡ false
      → hugepage_alloc sys size s
        ≡ hugepage_alloc_2mb sys (hugepage_num_pages_needed size hugepage_2mb_size) s
  unfolding hugepage_alloc
  alloc_big size big = simp (hugepage_alloc, ready, big)

module _ (sys : System) (s : HugepageManager) (ready : s.initialized ≡ true) (ptr : ℕ) where
  pub alloc_2mb-Granted :
      (pages n : ℕ)
      → 0 < pages
      → u64 (pages * hugepage_2mb_size) ≡ n
      → sys.mmap_2mb n ≡ some ptr
      → ((hugepage_alloc_2mb sys pages s).1 ≡ ptr)
        × Granted s ((hugepage_alloc_2mb sys pages s).0) n
  unfolding hugepage_alloc_2mb
  alloc_2mb-Granted pages n some_page e granted =
      let test : (not s.initialized || pages == 0) ≡ false = ground arith in
      let answer : sys.mmap_2mb (u64 (pages * hugepage_2mb_size)) ≡ some ptr =
        ap sys.mmap_2mb e ∙ granted in
      rw (hugepage_alloc_2mb, test, answer)
        (refl, (ap (λ m. u64 (s.stats.total_allocated_bytes + m)) e, refl, refl))

  alloc_1gb-Granted :
      (pages n : ℕ)
      → 0 < pages
      → u64 (pages * hugepage_1gb_size) ≡ n
      → sys.mmap_1gb n ≡ some ptr
      → ((hugepage_alloc_1gb sys pages s).1 ≡ ptr)
        × Granted s ((hugepage_alloc_1gb sys pages s).0) n
  unfolding hugepage_alloc_1gb
  alloc_1gb-Granted pages n some_page e granted =
      let test : (not s.initialized || pages == 0) ≡ false = ground arith in
      let answer : sys.mmap_1gb (u64 (pages * hugepage_1gb_size)) ≡ some ptr =
        ap sys.mmap_1gb e ∙ granted in
      rw (hugepage_alloc_1gb, test, answer)
        (refl, (ap (λ m. u64 (s.stats.total_allocated_bytes + m)) e, refl, refl))

  alloc-Granted :
      (size : ℕ)
      → hugepage_2mb_size ≤ size
      → size ≤ 9223372036854775808
      → sys.mmap_2mb (hugepage_align_size size) ≡ some ptr
      → sys.mmap_1gb (hugepage_align_size size) ≡ some ptr
      → ((hugepage_alloc sys size s).1 ≡ ptr)
        × Granted s ((hugepage_alloc sys size s).0) (hugepage_align_size size)
  alloc-Granted size large small in_2mb in_1gb =
      let whole = pages_size size large small in
      let (some_1gb, some_2mb) = pages_ne_zero size (omega arith) small in
      elim (Bool-cases (leb hugepage_1gb_size (hugepage_align_size size))) [
        | inl giant ↦
            subst (λ t. (t.1 ≡ ptr) × Granted s (t.0) (hugepage_align_size size))
              (sym (alloc_giant sys s ready size giant))
              (alloc_1gb-Granted (hugepage_num_pages_needed size hugepage_1gb_size)
                (hugepage_align_size size) some_1gb (ground arith) in_1gb)
        | inr big ↦
            subst (λ t. (t.1 ≡ ptr) × Granted s (t.0) (hugepage_align_size size))
              (sym (alloc_big sys s ready size big))
              (alloc_2mb-Granted (hugepage_num_pages_needed size hugepage_2mb_size)
                (hugepage_align_size size) some_2mb (ground arith) in_2mb)
      ]

active_back :
    (a f n a' f' : ℕ)
    → a' ≡ u64 (a + n)
    → f' ≡ f
    → f < 18446744073709551616
    → sub64 a' (u64 (f' + n)) ≡ sub64 a f
active_back a f n a' f' more same word = omega arith

-- `hugepage_free` after `hugepage_alloc` of 2 MB to 2^63 bytes that the system maps, in pages of
-- either size: exactly the range that was mapped is unmapped, and the number of active bytes is
-- what it was, also where the counters wrap.
pub hugepage_free-hugepage_alloc :
    (sys : System) (s : HugepageManager) (size ptr : ℕ)
    → s.initialized ≡ true
    → s.stats.total_freed_bytes < 18446744073709551616
    → hugepage_2mb_size ≤ size
    → size ≤ 9223372036854775808
    → sys.mmap_2mb (hugepage_align_size size) ≡ some ptr
    → sys.mmap_1gb (hugepage_align_size size) ≡ some ptr
    → ptr ≢ 0
    → ((hugepage_alloc sys size s).1 ≡ ptr)
      × ((hugepage_free ptr size ((hugepage_alloc sys size s).0)).unmapped
          ≡ (ptr, hugepage_align_size size) ∷ s.unmapped)
      × (hugepage_get_active_bytes (hugepage_free ptr size ((hugepage_alloc sys size s).0))
          ≡ hugepage_get_active_bytes s)
unfolding hugepage_free hugepage_get_active_bytes
hugepage_free-hugepage_alloc sys s size ptr ready word large small in_2mb in_1gb not_null =
    let (there, counted) = alloc-Granted sys s ready ptr size large small in_2mb in_1gb in
    let test : (ptr == 0) ≡ false = ground arith in
    (
      there,
      rw (hugepage_free, test) (ap (λ u. (ptr, hugepage_align_size size) ∷ u) (counted.2)),
      rw (hugepage_free, test)
          (active_back s.stats.total_allocated_bytes s.stats.total_freed_bytes
            (hugepage_align_size size) _ _ (counted.0) (counted.1) word),
    )
