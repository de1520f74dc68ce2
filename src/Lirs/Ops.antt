-- ===== src/Lirs/Ops.antt =====
-- The calls of src/cache/lirs/lirs.c.
use nomalloc.Prelude.{
  ℕ, ◌+◌, Bool, true, false, not, ◌&&◌, [], ◌∷◌, ◌++◌, Option, none, some, ◌==◌, if◌then◌else◌, u64,
  sub64,
}
use nomalloc.Lirs.{
  LirsBlockType, lir, hir_resident, hir_non_resident, type_code, LirsBlock, LirsStats, LirsCache,
  drop_node, set_block, discard, lirs_find_block, lirs_prune_s_stack, lirs_evict_hir,
  lirs_promote_hir,
}

-- What a call returns: 0, -1, -2 or -3.
pub data LirsResult : Type 0 where
  stored no_key refused no_memory : LirsResult

-- The block goes to the top of the stack.
unfoldable pub to_top : ℕ → LirsCache → Option LirsCache
to_top id c = elim (c.blocks id) [
  | none ↦ none
  | some b ↦
      if b.in_s_stack
      then some (record c { s_stack = drop_node id c.s_stack ++ (id ∷ []) })
      else some (
          set_block id (some (record b { in_s_stack = true })) (record c {
            s_stack = c.s_stack ++ (id ∷ []);
            s_stack_size = u64 (c.s_stack_size + 1);
          }))
]

-- A resident block outside the queue goes to the end of the queue.
unfoldable pub to_queue : ℕ → LirsCache → Option LirsCache
to_queue id c = elim (c.blocks id) [
  | none ↦ none
  | some b ↦
      if type_code b.kind == 1 && not b.in_q_queue
      then some (
          set_block id (some (record b { in_q_queue = true })) (record c {
            q_queue = c.q_queue ++ (id ∷ []);
            q_queue_size = u64 (c.q_queue_size + 1);
          }))
      else some c
]

unfoldable pub hit_lir : ℕ → LirsCache → Option LirsCache
hit_lir id c = elim (to_top id c) [ none ↦ none | some c' ↦ lirs_prune_s_stack c' ]

unfoldable pub hit_resident : ℕ → LirsBlock → LirsCache → Option LirsCache
hit_resident id b c = elim (if b.in_s_stack then lirs_promote_hir id b c else some c) [
  | none ↦ none
  | some c1 ↦ elim (to_top id c1) [
    | none ↦ none
    | some c2 ↦ elim (to_queue id c2) [ none ↦ none | some c3 ↦ lirs_evict_hir c3 ]
  ]
]

unfoldable pub miss_non_resident : ℕ → LirsBlock → LirsCache → Option LirsCache
miss_non_resident id b c =
    if b.in_s_stack
    then lirs_prune_s_stack (
        discard id b
          (record c { s_stack = drop_node id c.s_stack; s_stack_size = sub64 c.s_stack_size 1 }))
    else some c

abbrev pub count_hit : LirsCache → LirsCache
count_hit c = record c { stats = record (c.stats) { hits = u64 (c.stats.hits + 1) } }

abbrev pub count_miss : LirsCache → LirsCache
count_miss c = record c { stats = record (c.stats) { misses = u64 (c.stats.misses + 1) } }

-- The value of the block, read at the end.
unfoldable pub value_of : ℕ → LirsCache → Option (LirsCache × ℕ)
value_of id c = elim (c.blocks id) [ none ↦ none | some b ↦ some (c, b.value) ]

-- The switch of `lirs_get`, for the block that is found.
unfoldable pub visit_block : ℕ → LirsBlock → LirsCache → Option (LirsCache × ℕ)
visit_block id b c =
    if type_code b.kind == 0
    then elim (hit_lir id (count_hit c)) [ none ↦ none | some c' ↦ value_of id c' ]
    else if type_code b.kind == 1
    then elim (hit_resident id b (count_hit c)) [ none ↦ none | some c' ↦ value_of id c' ]
    else elim (miss_non_resident id b (count_miss c)) [ none ↦ none | some c' ↦ some (c', 0) ]

-- The value, 0 for NULL. `lirs_find_block` never returns NULL: it finds the block or faults.
unfoldable pub lirs_get : ℕ → LirsCache → Option (LirsCache × ℕ)
lirs_get key c = if key == 0 then some (c, 0) else elim (lirs_find_block c key) [
  | none ↦ none
  | some (id, b) ↦
      let now = u64 (c.current_time + 1) in
      let b' = record b { access_time = now } in
      visit_block id b' (set_block id (some b') (record c { current_time = now }))
]

-- The branch of `lirs_put` for a key that is there.
unfoldable pub replace_value : ℕ → LirsBlock → ℕ → ℕ → LirsCache → LirsCache
replace_value id b value size c =
    let called = record c {
      evicted =
          if c.has_callback && not (b.value == 0)
          then (b.key, b.value, b.size) ∷ c.evicted
          else c.evicted;
      stats = record (c.stats) { total_size = u64 (sub64 c.stats.total_size b.size + size) };
    } in
    if b.value == value
    then c
    else set_block id (some (record b { value = value; size = size })) called

-- `lirs_put`. The branch for a key that is not there stands behind `lirs_find_block`, which does
-- not return for such a key.
unfoldable pub lirs_put : ℕ → ℕ → ℕ → LirsCache → Option (LirsCache × LirsResult)
lirs_put key value size c = if key == 0 then some (c, no_key) else elim (lirs_find_block c key) [
  | none ↦ none
  | some (id, b) ↦ some (replace_value id b value size c, stored)
]

unfoldable pub count_out : LirsBlockType → LirsStats → LirsStats
count_out lir s = record s { lir_count = sub64 s.lir_count 1 }
count_out hir_resident s = record s { hir_resident_count = sub64 s.hir_resident_count 1 }
count_out hir_non_resident s = record s {
  hir_non_resident_count = sub64 s.hir_non_resident_count 1;
}

unfoldable pub lirs_remove : ℕ → LirsCache → Option (LirsCache × LirsResult)
lirs_remove key c = if key == 0 then some (c, no_key) else elim (lirs_find_block c key) [
  | none ↦ none
  | some (id, b) ↦
      let counted = record (c.stats) { total_size = sub64 c.stats.total_size b.size } in
      let unlinked = record c {
        s_stack = if b.in_s_stack then drop_node id c.s_stack else c.s_stack;
        s_stack_size = if b.in_s_stack then sub64 c.s_stack_size 1 else c.s_stack_size;
        q_queue = if b.in_q_queue then drop_node id c.q_queue else c.q_queue;
        q_queue_size = if b.in_q_queue then sub64 c.q_queue_size 1 else c.q_queue_size;
        stats = count_out b.kind counted;
      } in
      elim (lirs_prune_s_stack (discard id b unlinked)) [
        | none ↦ none
        | some c' ↦ some (c', stored)
      ]
]

unfoldable pub lirs_contains : LirsCache → ℕ → Option Bool
lirs_contains c key = if key == 0 then some false else elim (lirs_find_block c key) [
  | none ↦ none
  | some (id, b) ↦ some (not (type_code b.kind == 2))
]

unfoldable pub lirs_size : LirsCache → ℕ
lirs_size c = u64 (c.stats.lir_count + c.stats.hir_resident_count)
