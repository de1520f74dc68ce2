-- ===== src/Pages/Window.antt =====
-- The mapping that `memory_alloc_aligned` of src/utils/memory.h leaves.
use nomalloc.Prelude.{
  ℕ, ◌+◌, ◌-◌, ◌%◌, ◌^◌, ◌≤◌, ◌<◌, ◌≡◌, refl, ap, Bool, true, false, not, ◌&&◌, ◌||◌, List, [], ◌∷◌,
  ◌++◌, Option, some, leb, ltb, if◌then◌else◌, u64, sub64, arith,
}
use nomalloc.Math.{align_up}
use nomalloc.Math.Align.{align_up_least}
use nomalloc.Pages.{Mapping, trim, memory_alloc_aligned}

-- Is an address in one of the ranges?
pub covers : List (ℕ × ℕ) → ℕ → Bool
covers [] x = false
covers ((at, n) ∷ ranges) x = leb at x && ltb x (at + n) || covers ranges x

covers_two :
    (c d : Bool) (a n b k x : ℕ)
    → covers ((if c then (a, n) ∷ [] else []) ++ (if d then (b, k) ∷ [] else [])) x
      ≡ (c && (leb a x && ltb x (a + n)) || d && (leb b x && ltb x (b + k)))
unfolding covers
covers_two false false a n b k x = refl
covers_two false true a n b k x = ground arith
covers_two true false a n b k x = ground arith
covers_two true true a n b k x = ground arith

trim_window :
    (raw whole size alignment : ℕ)
    → raw ≤ align_up raw alignment
    → align_up raw alignment + size ≤ raw + whole
    → raw + whole < 2 ^ 64
    → (x : ℕ) → raw ≤ x
    → x < raw + whole
    → covers (trim raw whole size alignment).unmapped x
      ≡ not (leb (align_up raw alignment) x && ltb x (align_up raw alignment + size))
unfolding trim
trim_window raw whole size alignment low high fits x p q =
    let start = align_up raw alignment in
    let offset : sub64 start raw ≡ start - raw = omega arith in
    let tail : sub64 (sub64 whole (sub64 start raw)) size ≡ raw + whole - (start + size) =
      omega arith in
    rw
      (
        covers_two (ltb 0 (sub64 start raw)) (ltb 0 (sub64 (sub64 whole (sub64 start raw)) size))
            raw (sub64 start raw) (u64 (start + size)) (sub64 (sub64 whole (sub64 start raw)) size)
            x,
        tail,
        offset,
      )
      (ground arith)

-- If the system maps the range that is asked for and no sum overflows, `memory_alloc_aligned`
-- returns an aligned block of the size inside it, and of the mapping exactly that block stays.
pub memory_alloc_aligned_window :
    (page size alignment raw : ℕ) (mmap : ℕ → Option ℕ)
    → 0 < page
    → 0 < alignment
    → size + alignment + page ≤ 2 ^ 64
    → mmap (align_up (size + alignment) page) ≡ some raw
    → raw + align_up (size + alignment) page < 2 ^ 64
    → (w : Mapping) × (memory_alloc_aligned page mmap size alignment ≡ some w)
      × (w.ptr % alignment ≡ 0)
      × (raw ≤ w.ptr)
      × (w.ptr + size ≤ raw + w.mapped)
      × ((x : ℕ)
          → raw ≤ x
          → x < raw + w.mapped
          → covers w.unmapped x ≡ not (leb w.ptr x && ltb x (w.ptr + size)))
unfolding memory_alloc_aligned trim
memory_alloc_aligned_window page size alignment raw mmap p a room mapped fits =
    let total : u64 (size + alignment) ≡ size + alignment = omega arith in
    let whole = align_up_least (size + alignment) page p room in
    let start = align_up_least raw alignment a (omega (arith, whole.0)) in
    (
      trim raw (align_up (size + alignment) page) size alignment,
      rw (memory_alloc_aligned, total, mapped)
          (ap (λ n. some (trim raw (align_up n page) size alignment)) total),
      start.2,
      start.0,
      omega (arith, whole.0, start.1),
      trim_window raw (align_up (size + alignment) page) size alignment start.0
          (omega (arith, whole.0, start.1)) fits,
    )
