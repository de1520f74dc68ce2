-- ===== src/HugePages/Ops.antt =====
-- The calls of src/os/hugepages.c.
use nomalloc.Prelude.{
  ℕ, ◌+◌, ◌*◌, Bool, true, false, not, ◌||◌, List, [], ◌∷◌, Option, none, some, leb, ltb, ◌==◌,
  if◌then◌else◌, u64, sub64,
}
use nomalloc.Pages.{memory_alloc_aligned, memory_free_aligned}
use nomalloc.HugePages.{
  HugepageStats, HugepageConfig, HugepageManager, System, hugepage_2mb_size, hugepage_1gb_size,
  hugepage_round_up, hugepage_num_pages_needed, hugepage_align_size,
}

abbrev pub no_hugepage_stats : HugepageStats
no_hugepage_stats = record {
  total_pages = 0;
  free_pages = 0;
  reserved_pages = 0;
  surplus_pages = 0;
  allocations_2mb = 0;
  allocations_1gb = 0;
  allocations_failed = 0;
  total_allocated_bytes = 0;
  total_freed_bytes = 0;
  transparent_enabled = 0;
  transparent_always = 0;
}

abbrev pub default_hugepage_config : HugepageConfig
default_hugepage_config = record {
  enabled = false;
  mode = 2;
  page_size = hugepage_2mb_size;
  min_alloc_size = hugepage_2mb_size;
  max_alloc_size = 1024 * hugepage_2mb_size;
  reserve_pages = 0;
  min_free_pages = 0;
  fallback_to_regular = true;
  transparent_enabled = true;
  transparent_always = false;
  transparent_madvise = true;
}

-- What the reads of the total, of the free pages and of the transparent mode give: the number in
-- the file, or `none`. The result is always 0.
unfoldable pub hugepage_init : Option ℕ → Option ℕ → Option ℕ → HugepageManager → HugepageManager
hugepage_init total free transparent s =
    let fresh = record s {
      initialized = true;
      available = false;
      config = default_hugepage_config;
      pages_2mb = [];
      pages_1gb = [];
      stats = no_hugepage_stats;
    } in
    let absent : HugepageManager = elim transparent [
      | none ↦ fresh
      | some v ↦ record fresh { stats = record no_hugepage_stats { transparent_enabled = v } }
    ] in
    if s.initialized then s else elim total [
      | none ↦ absent
      | some t ↦ elim free [
        | none ↦ absent
        | some f ↦ record fresh {
          available = true;
          stats = record no_hugepage_stats { total_pages = t; free_pages = f };
        }
      ]
    ]

unfoldable pub hugepage_free : ℕ → ℕ → HugepageManager → HugepageManager
unfolding hugepage_align_size
hugepage_free ptr size s =
    let aligned_size = hugepage_align_size size in
    if ptr == 0 then s else record s {
      unmapped = (ptr, aligned_size) ∷ s.unmapped;
      stats = record (s.stats) {
        total_freed_bytes = u64 (s.stats.total_freed_bytes + aligned_size);
      };
    }

unfoldable pub free_pool : ℕ → List ℕ → HugepageManager → HugepageManager
unfolding hugepage_free
free_pool size [] s = s
free_pool size (ptr ∷ ptrs) s =
    free_pool size ptrs (if ptr == 0 then s else hugepage_free ptr size s)

-- The arrays are released and stay where they are in the manager.
unfoldable pub hugepage_shutdown : HugepageManager → HugepageManager
unfolding free_pool
hugepage_shutdown s =
    let emptied =
      free_pool hugepage_1gb_size s.pages_1gb (free_pool hugepage_2mb_size s.pages_2mb s) in
    if s.initialized then record emptied { initialized = false } else s

-- `true` stands for 0 and `false` for -1; `opened` tells whether the file can be opened.
unfoldable pub hugepage_reserve : Bool → ℕ → HugepageManager → HugepageManager × Bool
hugepage_reserve opened num_pages s = if not s.initialized || not opened then (s, false) else (
  record s {
    nr_hugepages = some num_pages;
    stats = record (s.stats) { reserved_pages = u64 (s.stats.reserved_pages + num_pages) };
  },
  true,
)

unfoldable pub hugepage_release_reserved : Bool → ℕ → HugepageManager → HugepageManager × Bool
hugepage_release_reserved opened num_pages s =
    let current = s.stats.reserved_pages in
    let released = if ltb current num_pages then current else num_pages in
    if not s.initialized || not opened then (s, false) else (
      record s {
        nr_hugepages = some 0;
        stats = record (s.stats) { reserved_pages = sub64 current released };
      },
      true,
    )

-- It returns 0 for a configuration that is not NULL.
unfoldable pub hugepage_configure : Bool → HugepageConfig → HugepageManager → HugepageManager
unfolding hugepage_reserve
hugepage_configure opened config s =
    let configured = record s { config = config } in
    if ltb 0 config.reserve_pages
    then (hugepage_reserve opened config.reserve_pages configured).0
    else configured

unfoldable pub hugepage_should_use : ℕ → HugepageManager → Bool
hugepage_should_use size s =
    if not s.initialized || not s.config.enabled then false else leb s.config.min_alloc_size size

unfoldable pub hugepage_enable_transparent : HugepageManager → HugepageManager
hugepage_enable_transparent s =
    if s.initialized
    then record s {
      config = record (s.config) { transparent_enabled = true; transparent_always = true };
    }
    else s

unfoldable pub hugepage_disable_transparent : HugepageManager → HugepageManager
hugepage_disable_transparent s =
    if s.initialized
    then record s {
      config = record (s.config) { transparent_enabled = false; transparent_always = false };
    }
    else s

-- The pointer of an aligned mapping, 0 for NULL.
unfoldable pub aligned_ptr : System → ℕ → ℕ → ℕ
aligned_ptr sys size alignment = elim (memory_alloc_aligned sys.page sys.mmap size alignment) [
  | none ↦ 0
  | some m ↦ m.ptr
]

abbrev pub count_failed : HugepageManager → HugepageManager
count_failed s = record s {
  stats = record (s.stats) { allocations_failed = u64 (s.stats.allocations_failed + 1) };
}

module _ (sys : System) where
  -- The pointer, 0 for NULL. With `madvise` the system is only told what the memory is for.
  unfoldable pub hugepage_alloc_2mb : ℕ → HugepageManager → HugepageManager × ℕ
  unfolding aligned_ptr
  hugepage_alloc_2mb num_pages s =
      let total_size = u64 (num_pages * hugepage_2mb_size) in
      if not s.initialized || num_pages == 0 then (s, 0) else elim (sys.mmap_2mb total_size) [
        | none ↦ (
          count_failed s,
          if s.config.fallback_to_regular then aligned_ptr sys total_size hugepage_2mb_size else 0,
        )
        | some ptr ↦ (
          record s {
            stats = record (s.stats) {
              allocations_2mb = u64 (s.stats.allocations_2mb + 1);
              total_allocated_bytes = u64 (s.stats.total_allocated_bytes + total_size);
            };
          },
          ptr,
        )
      ]

  unfoldable pub hugepage_alloc_1gb : ℕ → HugepageManager → HugepageManager × ℕ
  unfolding aligned_ptr
  hugepage_alloc_1gb num_pages s =
      let total_size = u64 (num_pages * hugepage_1gb_size) in
      if not s.initialized || num_pages == 0 then (s, 0) else elim (sys.mmap_1gb total_size) [
        | none ↦ (
          count_failed s,
          if s.config.fallback_to_regular then aligned_ptr sys total_size hugepage_1gb_size else 0,
        )
        | some ptr ↦ (
          record s {
            stats = record (s.stats) {
              allocations_1gb = u64 (s.stats.allocations_1gb + 1);
              total_allocated_bytes = u64 (s.stats.total_allocated_bytes + total_size);
            };
          },
          ptr,
        )
      ]

  unfoldable pub hugepage_alloc : ℕ → HugepageManager → HugepageManager × ℕ
  unfolding hugepage_align_size hugepage_num_pages_needed hugepage_alloc_2mb hugepage_alloc_1gb
  hugepage_alloc size s =
      if not s.initialized
      then (s, 0)
      else if leb hugepage_1gb_size (hugepage_align_size size)
      then hugepage_alloc_1gb (hugepage_num_pages_needed size hugepage_1gb_size) s
      else hugepage_alloc_2mb (hugepage_num_pages_needed size hugepage_2mb_size) s

  unfoldable pub hugepage_alloc_transparent : ℕ → HugepageManager → ℕ
  unfolding aligned_ptr hugepage_round_up
  hugepage_alloc_transparent size s =
      if not s.initialized || not s.config.transparent_enabled
      then aligned_ptr sys size sys.page
      else aligned_ptr sys (hugepage_round_up size hugepage_2mb_size) hugepage_2mb_size

  -- The range that is unmapped; `none` for NULL.
  unfoldable pub hugepage_free_transparent : ℕ → ℕ → Option (ℕ × ℕ)
  unfolding hugepage_align_size
  hugepage_free_transparent ptr size =
      memory_free_aligned sys.page ptr (hugepage_align_size size) hugepage_2mb_size
