-- ===== src/Lirs/Limits.antt =====
-- What src/cache/lirs/lirs.c does on a new cache, and the bounds that its loops restore.
use nomalloc.Prelude.{
  ℕ, ◌≤◌, ◌≡◌, ◌⊎◌, inl, inr, refl, ap, true, ◌&&◌, List, [], ◌∷◌, Option, none, some, ltb, ◌==◌,
  arith, Bool-cases, Option-cases,
}
use nomalloc.Lirs.{
  LirsBlock, LirsCache, type_code, find_in, lirs_find_block, prune_loop, lirs_prune_s_stack,
  evict_loop, lirs_evict_hir,
}

-- A cache whose table is empty.
abbrev Blank : Option (Option LirsCache) → Type 0
Blank none = Unit {0}
Blank (some none) = Unit {0}
Blank (some (some c)) = (i : ℕ) → c.hash_table i ≡ []

pub find_blank :
    (c : LirsCache) (key : ℕ) → ((i : ℕ) → c.hash_table i ≡ []) → lirs_find_block c key ≡ none
unfolding lirs_find_block find_in
find_blank c key empty = ap (λ ids. find_in ids key c.blocks) (empty _)

-- The queue after an eviction.
abbrev pub Evicted : Option LirsCache → Type 0
Evicted none = Unit {0}
Evicted (some c) = (c.q_queue ≡ []) ⊎ (c.q_queue_size ≤ c.hir_capacity)

evict_loop-Evicted : (ids : List ℕ) (c : LirsCache) → Evicted (evict_loop ids c)
unfolding evict_loop
evict_loop-Evicted [] c = inl refl
evict_loop-Evicted (id ∷ ids) c = elim (Bool-cases (ltb c.hir_capacity c.q_queue_size)) [
  | inl l ↦ elim (Option-cases (c.blocks id)) [
    | inl n ↦ rw (evict_loop, l, n) tt
    | inr (b, n) ↦ rw (evict_loop, l, n) (evict_loop-Evicted ids _)
  ]
  | inr l ↦ rw (evict_loop, l) (inr (ground arith))
]

-- The stack after it is pruned: its bottom is a LIR block that is marked as in the stack.
abbrev pub Pruned : Option LirsCache → Type 0
Pruned none = Unit {0}
Pruned (some c) =
    (c.s_stack ≡ [])
    ⊎ ((id : ℕ) × (rest : List ℕ) × (b : LirsBlock) × (c.s_stack ≡ id ∷ rest)
        × (c.blocks id ≡ some b)
        × (type_code b.kind ≡ 0)
        × (b.in_s_stack ≡ true))

prune_loop-Pruned : (ids : List ℕ) (c : LirsCache) → Pruned (prune_loop ids c)
unfolding prune_loop
prune_loop-Pruned [] c = inl refl
prune_loop-Pruned (id ∷ ids) c = elim (Option-cases (c.blocks id)) [
  | inl n ↦ rw (prune_loop, n) tt
  | inr (b, n) ↦ elim (Bool-cases (type_code b.kind == 0 && b.in_s_stack)) [
    | inl l ↦ rw (prune_loop, n, l) (inr (id, ids, b, refl, n, ground arith, ground arith))
    | inr l ↦ rw (prune_loop, n, l) (prune_loop-Pruned ids _)
  ]
]

-- Wherever they return, `lirs_evict_hir` leaves the queue empty or no longer than the room for
-- resident HIR blocks, and `lirs_prune_s_stack` leaves the stack empty or with a LIR block at its
-- bottom.
pub lirs_loops_restore :
    (c : LirsCache) → Evicted (lirs_evict_hir c) × Pruned (lirs_prune_s_stack c)
unfolding lirs_evict_hir lirs_prune_s_stack
lirs_loops_restore c = (evict_loop-Evicted c.q_queue c, prune_loop-Pruned c.s_stack c)
