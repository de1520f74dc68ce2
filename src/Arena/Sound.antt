-- ===== src/Arena/Sound.antt =====
-- The chunks of an arena under `arena_malloc` and `arena_free` of src/memory/arena.c.
use nomalloc.Prelude.{
  ℕ, ◌+◌, ◌≡◌, inl, inr, refl, subst, Bool, true, false, not, ◌||◌, Option, none, some, ltb, leb,
  ◌==◌, if◌then◌else◌, u64, Bool-cases, Option-cases,
}
use nomalloc.Math.{align_up}
use nomalloc.SizeClass.{size_to_class, is_large_class_idx}
use nomalloc.Chunk.Types.{Chunk, ptr_to_chunk, ptr_is_in_chunk, chunk_run_size, chunk_get_available}
use nomalloc.Chunk.Small.{chunk_alloc_small}
use nomalloc.Chunk.Large.{chunk_alloc_large, chunk_free_large}
use nomalloc.Chunk.Runs.{IsSoundChunk, chunk_alloc_small-IsSoundChunk}
use nomalloc.Chunk.Return.{chunk_free_small-IsSoundChunk}
use nomalloc.Arena.Heap.{
  ArenaHeap, ChunkGrant, put_chunk, drop_chunk, made, arena_find_available_chunk, serve,
  malloc_small, malloc_large, arena_malloc, free_large, free_small, arena_free,
}
use nomalloc.Arena.Guess.{IsSoundHeap, Sound?, chunk_create-IsSoundChunk, found_sound}

-- Every chunk of the table is sound.
abbrev SoundTable : (ℕ → Option Chunk) → Type 0
SoundTable chunks = (a : ℕ) → Sound? (chunks a)

heap-SoundTable : (h : ArenaHeap) → IsSoundHeap h → SoundTable h.chunks
heap-SoundTable h sound a = elim (Option-cases (h.chunks a)) [
  | inl n ↦ rw n tt
  | inr (ch, n) ↦ rw n (sound a ch n)
]

table-IsSoundHeap : (h : ArenaHeap) → SoundTable h.chunks → IsSoundHeap h
table-IsSoundHeap h table a ch e = subst Sound? e (table a)

put_chunk-SoundTable :
    (ch : Chunk) (chunks : ℕ → Option Chunk)
    → IsSoundChunk ch
    → SoundTable chunks
    → SoundTable (put_chunk ch chunks)
unfolding put_chunk
put_chunk-SoundTable ch chunks ok table a = elim (Bool-cases (a == ch.base_addr)) [
  | inl e ↦ rw e ok
  | inr e ↦ rw e (table a)
]

drop_chunk-SoundTable :
    (base : ℕ) (chunks : ℕ → Option Chunk) → SoundTable chunks → SoundTable (drop_chunk base chunks)
unfolding drop_chunk
drop_chunk-SoundTable base chunks table a = elim (Bool-cases (a == base)) [
  | inl e ↦ rw e tt
  | inr e ↦ rw e (table a)
]

chunk_alloc_large-IsSoundChunk :
    (size : ℕ) (ch : Chunk) → IsSoundChunk ch → IsSoundChunk (chunk_alloc_large size ch).0
unfolding chunk_alloc_large
chunk_alloc_large-IsSoundChunk size ch ok =
    elim (Bool-cases (ltb (chunk_get_available ch) (align_up size chunk_run_size))) [
      | inl e ↦ rw (chunk_alloc_large, e) ok
      | inr e ↦
          rw (chunk_alloc_large, e) (record { free_runs = ok.free_runs; full_runs = ok.full_runs })
    ]

chunk_free_large-IsSoundChunk :
    (ptr size : ℕ) (ch : Chunk) → IsSoundChunk ch → IsSoundChunk (chunk_free_large ptr size ch)
unfolding chunk_free_large
chunk_free_large-IsSoundChunk ptr size ch ok = elim (Bool-cases (ptr == 0)) [
  | inl e ↦ rw e ok
  | inr e ↦ rw e (record { free_runs = ok.free_runs; full_runs = ok.full_runs })
]

-- The chunks after a call, in either branch of a test.
either :
    {A : Type 0} (b : Bool) (x y : ArenaHeap × A)
    → (b ≡ true → SoundTable x.0.chunks)
    → (b ≡ false → SoundTable y.0.chunks)
    → SoundTable (if b then x else y).0.chunks
either true x y p q = p refl
either false x y p q = q refl

same_table :
    (b : Bool) (x y : ArenaHeap)
    → SoundTable x.chunks
    → SoundTable y.chunks
    → SoundTable (if b then x else y).chunks
same_table true x y p q = p
same_table false x y p q = q

serve-SoundTable :
    (got : ChunkGrant) (c : ℕ) (ch : Chunk) (h : ArenaHeap)
    → IsSoundChunk ch
    → SoundTable h.chunks
    → SoundTable (serve got c ch h).0.chunks
unfolding serve
serve-SoundTable got c ch h ok table =
    let put =
      put_chunk-SoundTable _ h.chunks (chunk_alloc_small-IsSoundChunk got.run c ch ok) table in
    same_table ((chunk_alloc_small got.run c ch).1 == 0) _ _ put put

malloc_small-SoundTable :
    (got : ChunkGrant) (c : ℕ) (h : ArenaHeap)
    → SoundTable h.chunks
    → SoundTable (malloc_small got c h).0.chunks
unfolding malloc_small
malloc_small-SoundTable got c h table = elim (Option-cases (arena_find_available_chunk h c)) [
  | inr (ch, e) ↦
      rw (malloc_small, e)
        (serve-SoundTable got c ch h (subst Sound? e (found_sound c h (table-IsSoundHeap h table)))
          table)
  | inl e ↦ elim (Bool-cases (leb h.arena.max_chunks h.arena.num_chunks)) [
    | inl l ↦ rw (malloc_small, e, l) table
    | inr l ↦ elim (Option-cases (made got)) [
      | inl n ↦ rw (malloc_small, e, l, n) table
      | inr (ch, n) ↦
          let ok = chunk_create-IsSoundChunk _ _ _ _ ch n in
          rw (malloc_small, e, l, n)
            (serve-SoundTable got c ch _ ok (put_chunk-SoundTable ch h.chunks ok table))
    ]
  ]
]

malloc_large-SoundTable :
    (got : ChunkGrant) (size : ℕ) (h : ArenaHeap)
    → SoundTable h.chunks
    → SoundTable (malloc_large got size h).0.chunks
unfolding malloc_large
malloc_large-SoundTable got size h table =
    elim (Bool-cases (leb h.arena.max_chunks h.arena.num_chunks)) [
      | inl l ↦ rw (malloc_large, l) table
      | inr l ↦ elim (Option-cases (made got)) [
        | inl n ↦ rw (malloc_large, l, n) table
        | inr (ch, n) ↦
            let ok =
              chunk_alloc_large-IsSoundChunk size ch (chunk_create-IsSoundChunk _ _ _ _ ch n) in
            rw (malloc_large, l, n)
              (either ((chunk_alloc_large size ch).1 == 0) _ _ (λ e. table)
                (λ e. put_chunk-SoundTable _ h.chunks ok table))
      ]
    ]

arena_malloc-SoundTable :
    (got : ChunkGrant) (size : ℕ) (h : ArenaHeap)
    → SoundTable h.chunks
    → SoundTable (arena_malloc got size h).0.chunks
unfolding arena_malloc
arena_malloc-SoundTable got size h table =
    let c = size_to_class size in
    let counted = record h {
      arena = record (h.arena) { alloc_ops = u64 (h.arena.alloc_ops + 1) };
    } in
    either (size == 0 || not h.arena.active) _ _ (λ e. table)
      (λ e.
        either (is_large_class_idx c) _ _ (λ e. malloc_large-SoundTable got size counted table)
          (λ e. malloc_small-SoundTable got c counted table))

free_small-SoundTable :
    (ch : Chunk) (ptr : ℕ) (h : ArenaHeap)
    → IsSoundChunk ch
    → SoundTable h.chunks
    → SoundTable (free_small ch ptr h).chunks
unfolding free_small
free_small-SoundTable ch ptr h ok table =
    put_chunk-SoundTable _ h.chunks (chunk_free_small-IsSoundChunk ptr _ ch ok) table

free_large-SoundTable :
    (ch : Chunk) (ptr : ℕ) (h : ArenaHeap)
    → IsSoundChunk ch
    → SoundTable h.chunks
    → SoundTable (free_large ch ptr h).chunks
unfolding free_large
free_large-SoundTable ch ptr h ok table =
    same_table _ _ _ (drop_chunk-SoundTable ch.base_addr h.chunks table)
      (put_chunk-SoundTable _ h.chunks (chunk_free_large-IsSoundChunk ptr _ ch ok) table)

-- The arena, if the call returns.
abbrev pub KeptHeap : Option ArenaHeap → Type 0
KeptHeap none = Unit {0}
KeptHeap (some h) = IsSoundHeap h

kept_if :
    (b : Bool) (x y : ArenaHeap)
    → SoundTable x.chunks
    → SoundTable y.chunks
    → KeptHeap (if b then some x else some y)
kept_if true x y p q = table-IsSoundHeap x p
kept_if false x y p q = table-IsSoundHeap y q

arena_free-KeptHeap : (ptr : ℕ) (h : ArenaHeap) → SoundTable h.chunks → KeptHeap (arena_free ptr h)
unfolding arena_free
arena_free-KeptHeap ptr h table = elim (Bool-cases (ptr == 0 || not h.arena.active)) [
  | inl e ↦ rw (arena_free, e) (table-IsSoundHeap h table)
  | inr e ↦ elim (Option-cases (h.chunks (ptr_to_chunk ptr))) [
    | inl n ↦ rw (arena_free, e, n) tt
    | inr (ch, n) ↦
        let ok = table-IsSoundHeap h table (ptr_to_chunk ptr) ch n in
        let counted = record h {
          arena = record (h.arena) { free_ops = u64 (h.arena.free_ops + 1) };
        } in
        rw (arena_free, e, n)
          (kept_if (not (ptr_is_in_chunk ch ptr)) _ _ table (
            same_table ch.is_large _ _ (free_large-SoundTable ch ptr counted ok table)
              (free_small-SoundTable ch ptr counted ok table)))
  ]
]

-- `arena_malloc` and `arena_free` keep the runs of every chunk of an arena counted, whatever size,
-- pointer and answers of the system: `arena_malloc`, which always returns, and `arena_free` where
-- it returns.
pub arena-IsSoundHeap :
    (h : ArenaHeap)
    → IsSoundHeap h
    → ((got : ChunkGrant) (size : ℕ) → IsSoundHeap (arena_malloc got size h).0)
      × ((ptr : ℕ) → KeptHeap (arena_free ptr h))
arena-IsSoundHeap h sound =
    let table = heap-SoundTable h sound in
    (
      λ got size.
          table-IsSoundHeap (arena_malloc got size h).0 (arena_malloc-SoundTable got size h table),
      λ ptr. arena_free-KeptHeap ptr h table,
    )
