-- ===== src/HugePages/Losses.antt =====
-- Where `hugepage_free` of src/os/hugepages.c does not take back what `hugepage_alloc` gave.
use nomalloc.Prelude.{
  ℕ, ◌+◌, ◌-◌, ◌*◌, ◌≤◌, ◌<◌, ◌≡◌, ◌≢◌, ap, sym, subst, ◌∙◌, true, false, not, ◌||◌, ◌∷◌, none,
  some, leb, ◌==◌, if◌then◌else◌, u64, sub64, arith,
}
use nomalloc.HugePages.{
  HugepageManager, System, hugepage_2mb_size, hugepage_1gb_size, hugepage_align_size,
  hugepage_num_pages_needed, hugepage_get_active_bytes,
}
use nomalloc.HugePages.Ops.{
  hugepage_alloc, hugepage_alloc_2mb, hugepage_free, aligned_ptr, count_failed,
}
use nomalloc.HugePages.Rounding.{hugepage_align_size_lem, pages_size, pages_ne_zero, pages_small}
use nomalloc.HugePages.Balance.{Granted, alloc_big, alloc_2mb-Granted}

active_more :
    (a f n m a' f' : ℕ)
    → a' ≡ u64 (a + n)
    → f' ≡ f
    → f < 18446744073709551616
    → m ≤ n
    → sub64 a' (u64 (f' + m)) ≡ u64 (sub64 a f + (n - m))
active_more a f n m a' f' more same word below = omega arith

-- Below 2 MB `hugepage_alloc` maps a whole page of 2 MB, and `hugepage_free` unmaps the size only:
-- the rest of the page stays mapped, and counts as active for ever.
pub hugepage_free_leaks :
    (sys : System) (s : HugepageManager) (size ptr : ℕ)
    → s.initialized ≡ true
    → s.stats.total_freed_bytes < 18446744073709551616
    → 0 < size
    → size < hugepage_2mb_size
    → sys.mmap_2mb hugepage_2mb_size ≡ some ptr
    → ptr ≢ 0
    → ((hugepage_alloc sys size s).1 ≡ ptr)
      × ((hugepage_free ptr size ((hugepage_alloc sys size s).0)).unmapped
          ≡ (ptr, size) ∷ s.unmapped)
      × (hugepage_get_active_bytes (hugepage_free ptr size ((hugepage_alloc sys size s).0))
          ≡ u64 (hugepage_get_active_bytes s + (hugepage_2mb_size - size)))
unfolding hugepage_free hugepage_get_active_bytes
hugepage_free_leaks sys s size ptr ready word some_bytes small granted not_null =
    let (one, same) = pages_small size some_bytes small in
    let big : leb hugepage_1gb_size (hugepage_align_size size) ≡ false = ground arith in
    let (there, counted) =
      subst (λ t. (t.1 ≡ ptr) × Granted s (t.0) hugepage_2mb_size)
        (sym (alloc_big sys s ready size big))
        (alloc_2mb-Granted sys s ready ptr (hugepage_num_pages_needed size hugepage_2mb_size)
          hugepage_2mb_size (omega arith) (omega arith) granted) in
    let test : (ptr == 0) ≡ false = ground arith in
    (
      there,
      rw (hugepage_free, test, same) (ap (λ u. (ptr, size) ∷ u) (counted.2)),
      rw (hugepage_free, test, same)
          (active_more s.stats.total_allocated_bytes s.stats.total_freed_bytes hugepage_2mb_size
            size _ _ (counted.0) (counted.1) word (omega arith)),
    )

active_less :
    (a f n : ℕ)
    → f < 18446744073709551616
    → n < 18446744073709551616
    → sub64 a (u64 (f + n)) ≡ sub64 (sub64 a f) n
active_less a f n word small = omega arith

alloc_2mb_refused :
    (sys : System) (s : HugepageManager)
    → s.initialized ≡ true
    → s.config.fallback_to_regular ≡ true
    → (pages n : ℕ) → 0 < pages
    → u64 (pages * hugepage_2mb_size) ≡ n
    → sys.mmap_2mb n ≡ none
    → hugepage_alloc_2mb sys pages s ≡ (count_failed s, aligned_ptr sys n hugepage_2mb_size)
unfolding hugepage_alloc_2mb
alloc_2mb_refused sys s ready fallback pages n some_page e refused =
    let test : (not s.initialized || pages == 0) ≡ false = ground arith in
    rw (hugepage_alloc_2mb, test, e, refused)
      (ap
          (λ b. (
            count_failed s,
            if b then aligned_ptr sys (u64 (pages * hugepage_2mb_size)) hugepage_2mb_size else 0,
          ))
          fallback
        ∙ ap (λ m. (count_failed s, aligned_ptr sys m hugepage_2mb_size)) e)

drifted :
    (s : HugepageManager) (size ptr : ℕ)
    → (ptr == 0) ≡ false
    → s.stats.total_freed_bytes < 18446744073709551616
    → hugepage_align_size size < 18446744073709551616
    → hugepage_get_active_bytes (hugepage_free ptr size s)
      ≡ sub64 (hugepage_get_active_bytes s) (hugepage_align_size size)
unfolding hugepage_free hugepage_get_active_bytes
drifted s size ptr test word small =
    rw (hugepage_free, test)
      (active_less s.stats.total_allocated_bytes s.stats.total_freed_bytes
        (hugepage_align_size size) word small)

-- If the system refuses huge pages and ordinary memory is taken instead, `hugepage_alloc` of 2 MB to
-- less than 1 GB - 2 MB counts nothing as allocated, but `hugepage_free` counts the rounded size as
-- freed: the number of active bytes goes down by it, below zero where nothing else is active.
pub hugepage_fallback_drifts :
    (sys : System) (s : HugepageManager) (size : ℕ)
    → s.initialized ≡ true
    → s.config.fallback_to_regular ≡ true
    → s.stats.total_freed_bytes < 18446744073709551616
    → hugepage_2mb_size ≤ size
    → size + hugepage_2mb_size < hugepage_1gb_size
    → sys.mmap_2mb (hugepage_align_size size) ≡ none
    → aligned_ptr sys (hugepage_align_size size) hugepage_2mb_size ≢ 0
    → ((hugepage_alloc sys size s).1 ≡ aligned_ptr sys (hugepage_align_size size) hugepage_2mb_size)
      × (hugepage_get_active_bytes
            (hugepage_free ((hugepage_alloc sys size s).1) size ((hugepage_alloc sys size s).0))
          ≡ sub64 (hugepage_get_active_bytes s) (hugepage_align_size size))
unfolding hugepage_free hugepage_get_active_bytes
hugepage_fallback_drifts sys s size ready fallback word large small refused there =
    let big : leb hugepage_1gb_size (hugepage_align_size size) ≡ false =
      ground (arith, hugepage_align_size_lem size (omega arith)) in
    let whole = pages_size size large (omega arith) in
    let step =
      alloc_big sys s ready size big
      ∙ alloc_2mb_refused sys s ready fallback (hugepage_num_pages_needed size hugepage_2mb_size)
          (hugepage_align_size size) (pages_ne_zero size (omega arith) (omega arith)).1
          (ground arith) refused in
    let test : (aligned_ptr sys (hugepage_align_size size) hugepage_2mb_size == 0) ≡ false =
      ground arith in
    (
      ap (λ t. t.1) step,
      rw step (
          drifted (count_failed s) size
            (aligned_ptr sys (hugepage_align_size size) hugepage_2mb_size) test word
            (ground (arith, hugepage_align_size_lem size (omega arith)))),
    )
