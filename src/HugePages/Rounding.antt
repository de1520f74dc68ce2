-- ===== src/HugePages/Rounding.antt =====
-- The sizes that src/os/hugepages.c works with.
use nomalloc.Prelude.{ℕ, ◌+◌, ◌*◌, ◌/◌, ◌%◌, ◌≤◌, ◌<◌, ◌≡◌, leb, if◌then◌else◌, u64, arith}
use nomalloc.HugePages.{
  hugepage_2mb_size, hugepage_1gb_size, hugepage_round_up, hugepage_num_pages_needed,
  hugepage_align_size,
}

-- Rounding to 2 MB and to 1 GB, up to 2^63.
pub round_up_2mb :
    (size : ℕ)
    → size ≤ 9223372036854775808
    → (hugepage_round_up size hugepage_2mb_size ≡ (size + 2097151) / 2097152 * 2097152)
unfolding hugepage_round_up
round_up_2mb size small = omega arith

pub round_up_1gb :
    (size : ℕ)
    → size ≤ 9223372036854775808
    → (hugepage_round_up size hugepage_1gb_size ≡ (size + 1073741823) / 1073741824 * 1073741824)
unfolding hugepage_round_up
round_up_1gb size small = omega arith

-- The rounded size covers the size: it is a whole number of pages of 2 MB from 2 MB on and of pages
-- of 1 GB from 1 GB on, with less than one page to spare, and sizes below 2 MB stay as they are.
pub hugepage_align_size_lem :
    (size : ℕ)
    → size ≤ 9223372036854775808
    → (size ≤ hugepage_align_size size)
      × (hugepage_align_size size
          < size + (if leb hugepage_1gb_size size then hugepage_1gb_size else hugepage_2mb_size))
      × ((if leb hugepage_2mb_size size then hugepage_align_size size % hugepage_2mb_size else 0)
          ≡ 0)
      × ((if leb hugepage_1gb_size size then hugepage_align_size size % hugepage_1gb_size else 0)
          ≡ 0)
      × ((if leb hugepage_2mb_size size then 0 else hugepage_align_size size)
          ≡ (if leb hugepage_2mb_size size then 0 else size))
unfolding hugepage_align_size
hugepage_align_size_lem size small =
    ground (arith, round_up_2mb size small, round_up_1gb size small)

-- From 2 MB on the pages that are asked for have just the rounded size.
pub pages_size :
    (size : ℕ)
    → hugepage_2mb_size ≤ size
    → size ≤ 9223372036854775808
    → (if leb hugepage_1gb_size (hugepage_align_size size)
        then u64 (hugepage_num_pages_needed size hugepage_1gb_size * hugepage_1gb_size)
        else u64 (hugepage_num_pages_needed size hugepage_2mb_size * hugepage_2mb_size))
      ≡ hugepage_align_size size
unfolding hugepage_align_size hugepage_num_pages_needed
pages_size size large small = ground (arith, round_up_2mb size small, round_up_1gb size small)

pub pages_ne_zero :
    (size : ℕ)
    → 0 < size
    → size ≤ 9223372036854775808
    → (0 < hugepage_num_pages_needed size hugepage_1gb_size)
      × (0 < hugepage_num_pages_needed size hugepage_2mb_size)
unfolding hugepage_num_pages_needed
pages_ne_zero size some_bytes small =
    omega (arith, round_up_2mb size small, round_up_1gb size small)

-- Below 2 MB one page is asked for.
pub pages_small :
    (size : ℕ)
    → 0 < size
    → size < hugepage_2mb_size
    → (hugepage_num_pages_needed size hugepage_2mb_size ≡ 1) × (hugepage_align_size size ≡ size)
unfolding hugepage_num_pages_needed hugepage_align_size
pages_small size some_bytes small = ground (arith, round_up_2mb size (omega arith))
