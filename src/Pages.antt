-- ===== src/Pages.antt =====
-- The page allocation of src/utils/memory.h: `get_page_size`, `memory_alloc_aligned` and
-- `memory_free_aligned`. `mmap` is a parameter, from a length to an address or MAP_FAILED
-- (`none`), and `munmap` calls are ranges, an address and a length, in the order they are made.
pub mod Window
use nomalloc.Prelude.{
  ℕ, ◌+◌, ◌-◌, List, [], ◌∷◌, ◌++◌, Option, none, some, ltb, ◌==◌, if◌then◌else◌, u64, sub64,
}
use nomalloc.Math.{align_up, align_down}

abbrev pub page_size_default : ℕ
page_size_default = 4096

-- `configured` is what `sysconf(_SC_PAGESIZE)` answers.
unfoldable pub get_page_size : ℕ → ℕ
get_page_size configured = if configured == 0 then page_size_default else configured

-- A block of whole address space: the pointer the caller gets, the range that was mapped for it,
-- and the ranges that were unmapped again.
pub record Mapping : Type 0 where
  pub ptr : ℕ
  pub raw_ptr : ℕ
  pub mapped : ℕ
  pub unmapped : List (ℕ × ℕ)

-- The end of `memory_alloc_aligned`, for the mapping of `aligned_size` bytes at `addr`.
unfoldable pub trim : ℕ → ℕ → ℕ → ℕ → Mapping
trim addr aligned_size size alignment =
    let aligned_addr = align_up addr alignment in
    let offset = sub64 aligned_addr addr in
    let tail_size = sub64 (sub64 aligned_size offset) size in
    let head = if ltb 0 offset then (addr, offset) ∷ [] else [] in
    let tail = if ltb 0 tail_size then (u64 (aligned_addr + size), tail_size) ∷ [] else [] in
    record { ptr = aligned_addr; raw_ptr = addr; mapped = aligned_size; unmapped = head ++ tail }

unfoldable pub memory_alloc_aligned : ℕ → (ℕ → Option ℕ) → ℕ → ℕ → Option Mapping
memory_alloc_aligned page_size mmap size alignment =
    let total_size = u64 (size + alignment) in
    let aligned_size = align_up total_size page_size in
    elim (mmap aligned_size) [
      | none ↦ none
      | some addr ↦ some (trim addr aligned_size size alignment)
    ]

-- The range that `memory_free_aligned` unmaps; `none` is the NULL pointer.
unfoldable pub memory_free_aligned : ℕ → ℕ → ℕ → ℕ → Option (ℕ × ℕ)
memory_free_aligned page_size ptr size alignment =
    let page_aligned_addr = align_down ptr page_size in
    let head_size = sub64 ptr page_aligned_addr in
    let tail_size = sub64 (align_up size page_size) size in
    let total_size = u64 (head_size + size + tail_size) in
    if ptr == 0 then none else some (page_aligned_addr, align_up total_size page_size)
