-- ===== src/Arena/Guess.antt =====
-- What src/memory/arena.c makes of the chunks' runs.
use native.Mathlib.Nat.{div-eq_of_lt}
use nomalloc.Prelude.{
  ℕ, suc, ◌+◌, ◌/◌, ◌%◌, ◌≤◌, ◌<◌, ◌≡◌, ◌≢◌, inl, inr, refl, sym, ap, subst, ◌∙◌, Bool, true, false,
  not, ◌||◌, [], Option, none, some, leb, ◌==◌, if◌then◌else◌, u64, sub64, arith, ==_iff,
  Bool-cases, Option-cases,
}
use nomalloc.SizeClass.{num_size_classes, size_to_class, class_to_size, is_large_class_idx}
use nomalloc.Chunk.Types.{
  chunk_align, Chunk, ChunkRun, chunk_create, ptr_to_chunk, ptr_is_in_chunk, usable_base,
}
use nomalloc.Chunk.Small.{
  RunGrant, find_run, chunk_find_available_run, new_run, add_run, take_block, chunk_alloc_small,
  chunk_free_small,
}
use nomalloc.Chunk.Runs.{IsSoundChunk, first-IsOpenRun}
use nomalloc.Math.{align_up}
use nomalloc.Pages.{memory_alloc_aligned}
use nomalloc.SizeClass.Fit.{size_to_class_best_fit}
use nomalloc.Arena.Heap.{
  ArenaHeap, ChunkGrant, put_chunk, made, count_freed, arena_find_available_chunk, serve,
  malloc_small, arena_malloc, guess_class, free_small, arena_free,
}

find_none :
    (i : ℕ) (ch : Chunk) → ch.runs_free 0 ≡ [] → ch.runs_full 0 ≡ [] → find_run 0 i ch ≡ none
unfolding find_run
find_none i ch e e' = rw (find_run, e, e') (ground arith)

guess_hit :
    (left i offset room : ℕ)
    → class_to_size i ≢ 0
    → offset % class_to_size i ≡ 0
    → offset < room
    → guess_class (suc left) i offset room ≡ (i, class_to_size i)
unfolding guess_class
guess_hit left i offset room sized divides inside = ground arith

class_zero : class_to_size 0 ≡ 8
unfolding class_to_size
class_zero = refl

-- The first class, of 8 bytes, divides every offset of a block.
pub guess_class_first :
    (offset room : ℕ)
    → offset % 8 ≡ 0
    → offset < room
    → guess_class num_size_classes 0 offset room ≡ (0, 8)
guess_class_first offset room aligned inside =
    guess_hit 46 0 offset room (omega (arith, class_zero)) (rw class_zero aligned) inside
    ∙ rw class_zero refl

no_run :
    (ptr : ℕ) (ch : Chunk)
    → ch.runs_free 0 ≡ []
    → ch.runs_full 0 ≡ []
    → chunk_free_small ptr 0 ch ≡ (ch, [])
unfolding chunk_free_small find_run
no_run ptr ch e e' = elim (Bool-cases (ptr == 0)) [
  | inl z ↦ rw z refl
  | inr z ↦ rw (chunk_free_small, z, find_none _ ch e e') refl
]

-- A pointer that `arena_free` takes for a small block of the chunk `ch`.
pub record IsBlockOf (ch : Chunk) (ptr : ℕ) (h : ArenaHeap) : Type 0 where
  pub not_null : ptr ≢ 0
  pub chunk : h.chunks (ptr_to_chunk ptr) ≡ some ch
  pub base : ch.base_addr ≡ ptr_to_chunk ptr
  pub small : ch.is_large ≡ false
  pub inside : ptr_is_in_chunk ch ptr ≡ true
  pub aligned : sub64 ptr (usable_base ch) % 8 ≡ 0
  pub usable : sub64 ptr (usable_base ch) < sub64 ch.size ch.usable_offset

put_same :
    (ch : Chunk) (chunks : ℕ → Option Chunk) (a : ℕ)
    → chunks ch.base_addr ≡ some ch
    → put_chunk ch chunks a ≡ chunks a
unfolding put_chunk
put_same ch chunks a here = elim (Bool-cases (a == ch.base_addr)) [
  | inl e ↦ rw e (sym here ∙ ap chunks (sym ((==_iff a ch.base_addr).0 e)))
  | inr e ↦ rw e refl
]

free_small_lem :
    (ch : Chunk) (ptr : ℕ) (h : ArenaHeap)
    → sub64 ptr (usable_base ch) % 8 ≡ 0
    → sub64 ptr (usable_base ch) < sub64 ch.size ch.usable_offset
    → ch.runs_free 0 ≡ []
    → ch.runs_full 0 ≡ []
    → free_small ch ptr h ≡ count_freed 8 (record h { chunks = put_chunk ch h.chunks })
unfolding free_small
free_small_lem ch ptr h aligned usable e e' =
    rw (free_small, guess_class_first _ _ aligned usable, no_run ptr ch e e') refl

pub if_false : {A : Type 0} (b : Bool) (x y : A) → b ≡ false → (if b then x else y) ≡ y
if_false b x y e = rw e refl

-- `arena_free` of a block at an offset that 8 divides, in a chunk without runs of the class of 8
-- bytes, releases nothing: every chunk stays as it is, while 8 bytes count as freed.
pub arena_free_keeps :
    (ch : Chunk) (ptr : ℕ) (h : ArenaHeap)
    → IsBlockOf ch ptr h
    → h.arena.active ≡ true
    → ch.runs_free 0 ≡ []
    → ch.runs_full 0 ≡ []
    → (h' : ArenaHeap) × (arena_free ptr h ≡ some h')
      × ((a : ℕ) → h'.chunks a ≡ h.chunks a)
      × (h'.arena.freed_bytes ≡ u64 (h.arena.freed_bytes + 8))
      × (h'.arena.num_chunks ≡ h.arena.num_chunks)
unfolding arena_free
arena_free_keeps ch ptr h block act e e' =
    let test : (ptr == 0 || not h.arena.active) ≡ false = ground (arith, block.not_null) in
    let counted = record h { arena = record (h.arena) { free_ops = u64 (h.arena.free_ops + 1) } } in
    (
      count_freed 8 (record counted { chunks = put_chunk ch h.chunks }),
      rw (arena_free, test, block.chunk, block.inside)
          (ap some (
            if_false _ _ _ block.small
            ∙ free_small_lem ch ptr counted block.aligned block.usable e e')),
      λ a. put_same ch h.chunks a (ap h.chunks block.base ∙ block.chunk),
      refl,
      refl,
    )

take_nothing :
    (c : ℕ) (run : ChunkRun) (ch : Chunk)
    → run.num_blocks ≡ 4096 / class_to_size c
    → 4096 < class_to_size c
    → (take_block run c ch).1 ≡ 0
unfolding take_block
take_nothing c run ch blocks big = ground (arith, div-eq_of_lt {n = 4096} {m = class_to_size c} big)

-- A sound chunk has no block of more than 4096 bytes.
chunk_alloc_small_null :
    (got : RunGrant) (c : ℕ) (ch : Chunk)
    → IsSoundChunk ch
    → 4096 < class_to_size c
    → (chunk_alloc_small got c ch).1 ≡ 0
unfolding chunk_alloc_small add_run new_run
chunk_alloc_small_null got c ch sound big = elim (Option-cases (chunk_find_available_run ch c)) [
  | inr (run, e) ↦
      rw (e, chunk_alloc_small)
        (take_nothing c run ch (first-IsOpenRun c run ch sound e).run.blocks big)
  | inl e ↦ elim (Bool-cases (got.run == 0 || class_to_size c == 0 || got.bitmap == 0)) [
    | inl g ↦ rw (chunk_alloc_small, e, add_run, g) refl
    | inr g ↦ rw (chunk_alloc_small, e, add_run, g) (take_nothing c (new_run got c) _ refl big)
  ]
]

-- Every chunk of an arena is sound.
abbrev pub IsSoundHeap : ArenaHeap → Type 0
IsSoundHeap h = (a : ℕ) (ch : Chunk) → h.chunks a ≡ some ch → IsSoundChunk ch

-- A property of the chunk, if there is one.
abbrev pub Sound? : Option Chunk → Type 0
Sound? none = Unit {0}
Sound? (some ch) = IsSoundChunk ch

made_sound :
    (page : ℕ) (mmap : ℕ → Option ℕ) (bytes size : ℕ) → Sound? (chunk_create page mmap bytes size)
unfolding chunk_create
made_sound page mmap bytes size =
    elim (Option-cases (memory_alloc_aligned page mmap (align_up size chunk_align) chunk_align)) [
      | inl e ↦ rw (chunk_create, e) tt
      | inr (mapping, e) ↦ elim (Bool-cases (mapping.ptr == 0)) [
        | inl z ↦ rw (chunk_create, e, z) tt
        | inr z ↦ rw (chunk_create, e, z) (record { free_runs = λ c. tt; full_runs = λ c. tt })
      ]
    ]

pub chunk_create-IsSoundChunk :
    (page : ℕ) (mmap : ℕ → Option ℕ) (bytes size : ℕ) (ch : Chunk)
    → chunk_create page mmap bytes size ≡ some ch
    → IsSoundChunk ch
chunk_create-IsSoundChunk page mmap bytes size ch e =
    subst Sound? e (made_sound page mmap bytes size)

serve_null :
    (got : ChunkGrant) (c : ℕ) (ch : Chunk) (h : ArenaHeap)
    → IsSoundChunk ch
    → 4096 < class_to_size c
    → (serve got c ch h).1 ≡ 0
unfolding serve
serve_null got c ch h sound big = chunk_alloc_small_null got.run c ch sound big

pub found_sound : (c : ℕ) (h : ArenaHeap) → IsSoundHeap h → Sound? (arena_find_available_chunk h c)
unfolding arena_find_available_chunk
found_sound c h sound = elim (Option-cases (h.first_free c)) [
  | inl n ↦ rw (arena_find_available_chunk, n) tt
  | inr (base, n) ↦ elim (Option-cases (h.chunks base)) [
    | inl n' ↦ rw (arena_find_available_chunk, n, n') tt
    | inr (ch, n') ↦ rw (arena_find_available_chunk, n, n') (sound base ch n')
  ]
]

malloc_small_null :
    (got : ChunkGrant) (c : ℕ) (h : ArenaHeap)
    → IsSoundHeap h
    → 4096 < class_to_size c
    → (malloc_small got c h).1 ≡ 0
unfolding malloc_small
malloc_small_null got c h sound big = elim (Option-cases (arena_find_available_chunk h c)) [
  | inr (ch, e) ↦
      rw (malloc_small, e) (serve_null got c ch h (subst Sound? e (found_sound c h sound)) big)
  | inl e ↦ elim (Bool-cases (leb h.arena.max_chunks h.arena.num_chunks)) [
    | inl l ↦ rw (malloc_small, e, l) refl
    | inr l ↦ elim (Option-cases (made got)) [
      | inl n ↦ rw (malloc_small, e, l, n) refl
      | inr (ch, n) ↦
          rw (malloc_small, e, l, n)
            (serve_null got c ch _ (chunk_create-IsSoundChunk _ _ _ _ ch n) big)
    ]
  ]
]

-- `arena_malloc` of more than 4096 bytes and at most 2^20 bytes returns NULL, whatever the system
-- answers: a run of 4096 bytes has no block of these classes.
pub arena_malloc_null :
    (got : ChunkGrant) (size : ℕ) (h : ArenaHeap)
    → IsSoundHeap h
    → 4096 < size
    → size ≤ 1048576
    → (arena_malloc got size h).1 ≡ 0
unfolding arena_malloc
arena_malloc_null got size h sound big fits =
    let (index, room, best) = size_to_class_best_fit size (omega arith) fits in
    let counted = record h {
      arena = record (h.arena) { alloc_ops = u64 (h.arena.alloc_ops + 1) };
    } in
    let small : is_large_class_idx (size_to_class size) ≡ false = ground arith in
    elim (Bool-cases (size == 0 || not h.arena.active)) [
      | inl t ↦ rw (arena_malloc, t) refl
      | inr t ↦
          rw (arena_malloc, t, small)
            (malloc_small_null got (size_to_class size) counted sound (omega arith))
    ]
