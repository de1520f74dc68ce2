-- ===== src/Lirs/Clear.antt =====
-- `lirs_clear` and `lirs_destroy` of src/cache/lirs/lirs.c, and its small readings.
use nomalloc.Prelude.{ℕ, ◌+◌, Bool, List, [], ◌∷◌, Option, none, some, ◌==◌, if◌then◌else◌, u64}
use nomalloc.Lirs.{LirsStats, LirsCache, drop_node, discard}
use nomalloc.Lirs.Ops.{lirs_size}

-- The loop over the stack from its top, which is the end of the list: every block is unlinked from
-- the stack and the table and released.
unfoldable pub clear_stack : List ℕ → LirsCache → Option LirsCache
clear_stack [] c = some c
clear_stack (id ∷ rest) c = elim (clear_stack rest c) [
  | none ↦ none
  | some c' ↦ elim (c'.blocks id) [
    | none ↦ none
    | some b ↦ some (discard id b (record c' { s_stack = drop_node id c'.s_stack }))
  ]
]

-- The loop over the queue from its head. A block is read there, also one that the loop over the
-- stack has released.
unfoldable pub clear_queue : List ℕ → LirsCache → Option LirsCache
clear_queue [] c = some c
clear_queue (id ∷ rest) c = elim (c.blocks id) [
  | none ↦ none
  | some b ↦
      let unlinked = record c { q_queue = drop_node id c.q_queue } in
      clear_queue rest (if b.in_s_stack then unlinked else discard id b unlinked)
]

unfoldable pub clear_lists : LirsCache → Option LirsCache
unfolding clear_stack clear_queue
clear_lists c = elim (clear_stack c.s_stack c) [ none ↦ none | some c' ↦ clear_queue c'.q_queue c' ]

abbrev pub cleared_stats : LirsStats → LirsStats
cleared_stats s = record s {
  lir_count = 0;
  hir_resident_count = 0;
  hir_non_resident_count = 0;
  total_size = 0;
}

unfoldable pub lirs_clear : LirsCache → Option LirsCache
unfolding clear_lists
lirs_clear c = elim (clear_lists c) [
  | none ↦ none
  | some c' ↦ some (record c' {
    hash_table = λ i. [];
    s_stack = [];
    q_queue = [];
    s_stack_size = 0;
    q_queue_size = 0;
    stats = cleared_stats c'.stats;
  })
]

-- The calls of the callback, when all blocks are gone.
unfoldable pub lirs_destroy : LirsCache → Option (List (ℕ × ℕ × ℕ))
unfolding clear_lists
lirs_destroy c = elim (clear_lists c) [ none ↦ none | some c' ↦ some c'.evicted ]

unfoldable pub lirs_is_empty : LirsCache → Bool
unfolding lirs_size
lirs_is_empty c = lirs_size c == 0

unfoldable pub lirs_set_evict_callback : Bool → LirsCache → LirsCache
lirs_set_evict_callback given c = record c { has_callback = given }

unfoldable pub lirs_get_stats : LirsCache → LirsStats
lirs_get_stats c = c.stats

-- What `lirs_get_hit_rate` divides, or `none` for 0.0.
unfoldable pub lirs_get_hit_rate : LirsCache → Option (ℕ × ℕ)
lirs_get_hit_rate c =
    let calls = u64 (c.stats.hits + c.stats.misses) in
    if calls == 0 then none else some (c.stats.hits, calls)
