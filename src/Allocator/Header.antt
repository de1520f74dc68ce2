-- ===== src/Allocator/Header.antt =====
-- The allocation header: `struct alloc_header` and the functions that write and find it.
use native.Mathlib.Nat.{add-zero}
use nomalloc.Prelude.{
  inl, inr, ◌∙◌, ℕ, ◌+◌, ◌-◌, ◌≤◌, ◌<◌, ◌≡◌, ◌^◌, arith, Option, none, some, ltb, ◌==◌,
  if◌then◌else◌, u64,
}
use nomalloc.Memory.{
  Memory, load, store, Agree, Apart, load-store_self, load-store-Apart, store-Agree, load-Agree,
}

pub record AllocHeader : Type 0 where
  pub raw_ptr : ℕ
  pub size : ℕ
  pub requested_size : ℕ
  pub magic : ℕ
  pub flags : ℕ

abbrev pub alloc_header_size : ℕ
alloc_header_size = 32

abbrev pub alloc_header_alignment : ℕ
alloc_header_alignment = 16

abbrev pub alloc_magic : ℕ
alloc_magic = 0x4E4F4D41

-- The fields at their offsets: three words of 8 bytes and two of 4.
unfoldable pub write_header : Memory → ℕ → AllocHeader → Memory
write_header m at h =
    let m1 = store 8 m at h.raw_ptr in
    let m2 = store 8 m1 (at + 8) h.size in
    let m3 = store 8 m2 (at + 16) h.requested_size in
    let m4 = store 4 m3 (at + 24) h.magic in store 4 m4 (at + 28) h.flags

unfoldable pub read_header : Memory → ℕ → AllocHeader
read_header m at = record {
  raw_ptr = load 8 m at;
  size = load 8 m (at + 8);
  requested_size = load 8 m (at + 16);
  magic = load 4 m (at + 24);
  flags = load 4 m (at + 28);
}

-- `header->requested_size = size`
unfoldable pub write_requested_size : Memory → ℕ → ℕ → Memory
write_requested_size m at size = store 8 m (at + 16) size

unfoldable pub add_header : Memory → ℕ → ℕ → ℕ → ℕ × Memory
add_header m raw_ptr size requested_size = if raw_ptr == 0 then (0, m) else (
  u64 (raw_ptr + alloc_header_size),
  write_header m raw_ptr (record {
    raw_ptr = raw_ptr;
    size = size;
    requested_size = requested_size;
    magic = alloc_magic;
    flags = 0;
  }),
)

unfoldable pub get_header : Memory → ℕ → Option ℕ
get_header m user_ptr =
    if user_ptr == 0
    then none
    else if ltb user_ptr alloc_header_size
    then none
    else if (read_header m (user_ptr - alloc_header_size)).magic == alloc_magic
    then some (user_ptr - alloc_header_size)
    else none

unfoldable pub remove_header : Memory → ℕ → ℕ
remove_header m user_ptr = elim (get_header m user_ptr) [ none ↦ user_ptr | some h ↦ h ]

-- The values that fit the fields.
pub record Fits (h : AllocHeader) : Type 0 where
  pub raw_fits : h.raw_ptr < 2 ^ 64
  pub size_fits : h.size < 2 ^ 64
  pub requested_fits : h.requested_size < 2 ^ 64
  pub magic_fits : h.magic < 2 ^ 32
  pub flags_fits : h.flags < 2 ^ 32

-- The header just written is the header read there.
pub read_header-write_header :
    (m : Memory) (at : ℕ) (h : AllocHeader) → Fits h → read_header (write_header m at h) at ≡ h
unfolding read_header write_header
read_header-write_header m at h f =
    let m1 = store 8 m at h.raw_ptr in
    let m2 = store 8 m1 (at + 8) h.size in
    let m3 = store 8 m2 (at + 16) h.requested_size in
    let m4 = store 4 m3 (at + 24) h.magic in
    ground (
      arith,
      load-store_self 8 m at h.raw_ptr f.raw_fits,
      load-store-Apart 8 m1 at 8 (at + 8) h.size (inl (omega arith)),
      load-store-Apart 8 m2 at 8 (at + 16) h.requested_size (inl (omega arith)),
      load-store-Apart 8 m3 at 4 (at + 24) h.magic (inl (omega arith)),
      load-store-Apart 8 m4 at 4 (at + 28) h.flags (inl (omega arith)),
      load-store_self 8 m1 (at + 8) h.size f.size_fits,
      load-store-Apart 8 m2 (at + 8) 8 (at + 16) h.requested_size (inl (omega arith)),
      load-store-Apart 8 m3 (at + 8) 4 (at + 24) h.magic (inl (omega arith)),
      load-store-Apart 8 m4 (at + 8) 4 (at + 28) h.flags (inl (omega arith)),
      load-store_self 8 m2 (at + 16) h.requested_size f.requested_fits,
      load-store-Apart 8 m3 (at + 16) 4 (at + 24) h.magic (inl (omega arith)),
      load-store-Apart 8 m4 (at + 16) 4 (at + 28) h.flags (inl (omega arith)),
      load-store_self 4 m3 (at + 24) h.magic f.magic_fits,
      load-store-Apart 4 m4 (at + 24) 4 (at + 28) h.flags (inl (omega arith)),
      load-store_self 4 m4 (at + 28) h.flags f.flags_fits,
    )

pub Agree-trans :
    (m m' m'' : Memory) (a n : ℕ) → Agree m m' a n → Agree m' m'' a n → Agree m m'' a n
Agree-trans m m' m'' a n f g x p q = g x p q ∙ f x p q

-- Writing a header changes only its 32 bytes.
pub write_header-Agree :
    (m : Memory) (at : ℕ) (h : AllocHeader) (b k : ℕ)
    → Apart b k at 32
    → Agree m (write_header m at h) b k
unfolding write_header
write_header-Agree m at h b k apart x p q =
    let m1 = store 8 m at h.raw_ptr in
    let m2 = store 8 m1 (at + 8) h.size in
    let m3 = store 8 m2 (at + 16) h.requested_size in
    let m4 = store 4 m3 (at + 24) h.magic in
    store-Agree 4 m4 (at + 28) h.flags b k (narrow 28 4 (omega arith)) x p q
    ∙ store-Agree 4 m3 (at + 24) h.magic b k (narrow 24 4 (omega arith)) x p q
    ∙ store-Agree 8 m2 (at + 16) h.requested_size b k (narrow 16 8 (omega arith)) x p q
    ∙ store-Agree 8 m1 (at + 8) h.size b k (narrow 8 8 (omega arith)) x p q
    ∙ store-Agree 8 m at h.raw_ptr b k (rw add-zero at (narrow 0 8 (omega arith))) x p q
  where
    narrow : (o n : ℕ) → o + n ≤ 32 → Apart b k (at + o) n
    narrow o n l = elim apart [ inl c ↦ inl (omega arith) | inr c ↦ inr (omega arith) ]

-- A header reads the same in two memories that agree on its 32 bytes.
pub read_header-Agree :
    (m m' : Memory) (at : ℕ) → Agree m m' at 32 → read_header m' at ≡ read_header m at
unfolding read_header
read_header-Agree m m' at h = ground (
  arith,
  load-Agree 8 m m' at (λ x p q. h x p (omega arith)),
  load-Agree 8 m m' (at + 8) (λ x p q. h x (omega arith) (omega arith)),
  load-Agree 8 m m' (at + 16) (λ x p q. h x (omega arith) (omega arith)),
  load-Agree 4 m m' (at + 24) (λ x p q. h x (omega arith) (omega arith)),
  load-Agree 4 m m' (at + 28) (λ x p q. h x (omega arith) (omega arith)),
)

-- A new requested size leaves the other fields and all bytes outside the field.
pub write_requested_size_lem :
    (m : Memory) (at size : ℕ)
    → size < 2 ^ 64
    → (read_header (write_requested_size m at size) at
        ≡ record (read_header m at) { requested_size = size })
unfolding write_requested_size read_header
write_requested_size_lem m at size f = ground (
  arith,
  load-store_self 8 m (at + 16) size f,
  load-store-Apart 8 m at 8 (at + 16) size (inl (omega arith)),
  load-store-Apart 8 m (at + 8) 8 (at + 16) size (inl (omega arith)),
  load-store-Apart 4 m (at + 24) 8 (at + 16) size (inr (omega arith)),
  load-store-Apart 4 m (at + 28) 8 (at + 16) size (inr (omega arith)),
)

pub write_requested_size-Agree :
    (m : Memory) (at size b k : ℕ) → Apart b k at 32 → Agree m (write_requested_size m at size) b k
unfolding write_requested_size
write_requested_size-Agree m at size b k apart =
    store-Agree 8 m (at + 16) size b k
      (elim apart [ inl c ↦ inl (omega arith) | inr c ↦ inr (omega arith) ])

-- `get_header` finds a header whose magic number is in place.
pub get_header_found :
    (m : Memory) (user : ℕ)
    → 32 ≤ user
    → (read_header m (user - 32)).magic ≡ alloc_magic
    → get_header m user ≡ some (user - 32)
unfolding get_header
get_header_found m user h e = ground arith
