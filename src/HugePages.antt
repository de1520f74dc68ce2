-- ===== src/HugePages.antt =====
-- The huge pages of src/os/hugepages.c and src/os/hugepages.h. The system is a parameter: what the
-- calls of `mmap` answer, the numbers in its files, and whether these can be opened. `unmapped`
-- lists the calls of `munmap`, the last one first, and `nr_hugepages` is the number that was last
-- written to /proc/sys/vm/nr_hugepages.
pub mod Ops
pub mod Rounding
pub mod Balance
pub mod Losses
use nomalloc.Prelude.{
  ℕ, ◌+◌, ◌*◌, ◌/◌, ◌%◌, Bool, List, [], Option, none, leb, ltb, if◌then◌else◌, u64, sub64,
}

pub record HugepageStats : Type 0 where
  pub total_pages : ℕ
  pub free_pages : ℕ
  pub reserved_pages : ℕ
  pub surplus_pages : ℕ
  pub allocations_2mb : ℕ
  pub allocations_1gb : ℕ
  pub allocations_failed : ℕ
  pub total_allocated_bytes : ℕ
  pub total_freed_bytes : ℕ
  pub transparent_enabled : ℕ
  pub transparent_always : ℕ

pub record HugepageConfig : Type 0 where
  pub enabled : Bool
  pub mode : ℕ
  pub page_size : ℕ
  pub min_alloc_size : ℕ
  pub max_alloc_size : ℕ
  pub reserve_pages : ℕ
  pub min_free_pages : ℕ
  pub fallback_to_regular : Bool
  pub transparent_enabled : Bool
  pub transparent_always : Bool
  pub transparent_madvise : Bool

-- `pages_2mb` and `pages_1gb` have the first entries of the arrays of the pool.
pub record HugepageManager : Type 0 where
  pub initialized : Bool
  pub available : Bool
  pub config : HugepageConfig
  pub pages_2mb : List ℕ
  pub pages_1gb : List ℕ
  pub stats : HugepageStats
  pub unmapped : List (ℕ × ℕ)
  pub nr_hugepages : Option ℕ

-- `mmap` with MAP_HUGETLB for pages of 2 MB and of 1 GB, `mmap` for ordinary pages, from a length
-- to an address or MAP_FAILED, and the size of an ordinary page.
pub record System : Type 0 where
  pub mmap_2mb : ℕ → Option ℕ
  pub mmap_1gb : ℕ → Option ℕ
  pub mmap : ℕ → Option ℕ
  pub page : ℕ

abbrev pub hugepage_2mb_size : ℕ
hugepage_2mb_size = 2097152

abbrev pub hugepage_1gb_size : ℕ
hugepage_1gb_size = 1073741824

unfoldable pub hugepage_round_up : ℕ → ℕ → ℕ
hugepage_round_up size page_size = u64 (sub64 (u64 (size + page_size)) 1 / page_size * page_size)

unfoldable pub hugepage_num_pages_needed : ℕ → ℕ → ℕ
unfolding hugepage_round_up
hugepage_num_pages_needed size page_size = hugepage_round_up size page_size / page_size

unfoldable pub hugepage_align_size : ℕ → ℕ
unfolding hugepage_round_up
hugepage_align_size size =
    if leb hugepage_1gb_size size
    then hugepage_round_up size hugepage_1gb_size
    else if leb hugepage_2mb_size size
    then hugepage_round_up size hugepage_2mb_size
    else size

unfoldable pub hugepage_get_active_bytes : HugepageManager → ℕ
hugepage_get_active_bytes s = sub64 s.stats.total_allocated_bytes s.stats.total_freed_bytes
