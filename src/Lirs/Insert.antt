-- ===== src/Lirs/Insert.antt =====
-- The insertion of a new key, and the change of the capacity, in src/cache/lirs/lirs.c.
use nomalloc.Prelude.{
  ℕ, zero, suc, ◌+◌, Bool, true, false, not, [], ◌∷◌, ◌++◌, Option, none, some, ltb, ◌==◌,
  if◌then◌else◌, u64, sub64,
}
use nomalloc.Lirs.{
  lir, hir_resident, type_code, LirsBlock, LirsCache, hir_capacity_of, lirs_hash_index, set_block,
  lirs_prune_s_stack, lirs_evict_hir, lirs_demote_lir,
}
use nomalloc.Lirs.Ops.{LirsResult, stored, refused, no_memory}

unfoldable pub lirs_block_create : ℕ → ℕ → ℕ → LirsBlock
lirs_block_create key value size = record {
  key = key;
  value = value;
  size = size;
  kind = hir_resident;
  access_time = 0;
  reuse_distance = 0;
  in_s_stack = false;
  in_q_queue = false;
}

unfoldable pub is_over : ℕ → LirsCache → Bool
is_over size c = ltb c.max_size (u64 (c.stats.total_size + size))

-- The loop that makes room: its body either returns, with `false` for -2, or leaves the loop's
-- condition false, so that it runs once at most.
unfoldable pub make_room : ℕ → LirsCache → Option (LirsCache × Bool)
unfolding is_over
make_room size c =
    if is_over size c
    then elim (lirs_evict_hir c) [
      | none ↦ none
      | some c1 ↦
          let pruned : Option LirsCache = lirs_prune_s_stack c1 in
          let next : Option LirsCache = if is_over size c1 then pruned else some c1 in
          elim next [ none ↦ none | some c2 ↦ some (c2, not (is_over size c2)) ]
    ]
    else some (c, true)

-- The block becomes the top of the stack; its bucket has it as the first.
unfoldable pub link_block : ℕ → LirsBlock → LirsCache → LirsCache
link_block id b c =
    let idx = lirs_hash_index b.key c.hash_table_mask in
    set_block id (some (record b { in_s_stack = true })) (record c {
      s_stack = c.s_stack ++ (id ∷ []);
      s_stack_size = u64 (c.s_stack_size + 1);
      hash_table = λ i. if i == idx then id ∷ c.hash_table i else c.hash_table i;
      stats = record (c.stats) { total_size = u64 (c.stats.total_size + b.size) };
    })

-- A LIR block while the stack has room for one, and else a resident HIR block in the queue.
unfoldable pub place_block : ℕ → LirsBlock → LirsCache → LirsCache
unfolding link_block
place_block id b c =
    if ltb c.s_stack_size (sub64 c.capacity c.hir_capacity)
    then link_block id (record b { kind = lir })
        (record c { stats = record (c.stats) { lir_count = u64 (c.stats.lir_count + 1) } })
    else link_block id (record b { kind = hir_resident; in_q_queue = true })
        (record c {
          q_queue = c.q_queue ++ (id ∷ []);
          q_queue_size = u64 (c.q_queue_size + 1);
          stats = record (c.stats) { hir_resident_count = u64 (c.stats.hir_resident_count + 1) };
        })

-- `lirs_put` where the key is not in the table; `granted` is the C library's answer for the block.
unfoldable pub lirs_put_new : ℕ → ℕ → ℕ → ℕ → LirsCache → Option (LirsCache × LirsResult)
unfolding make_room lirs_block_create place_block
lirs_put_new granted key value size c = elim (make_room size c) [
  | none ↦ none
  | some (c1, fits) ↦
      let now = u64 (c1.current_time + 1) in
      let b = record (lirs_block_create key value size) { access_time = now } in
      let placed = place_block granted b (record c1 { current_time = now }) in
      let settled : Option (LirsCache × LirsResult) = elim (lirs_prune_s_stack placed) [
        | none ↦ none
        | some c2 ↦ elim (lirs_evict_hir c2) [ none ↦ none | some c3 ↦ some (c3, stored) ]
      ] in
      if not fits
      then some (c1, refused)
      else if granted == 0
      then some (c1, no_memory)
      else settled
]

-- The loop of `lirs_resize`; `none` if the fuel runs out, or at a fault.
unfoldable pub resize_loop : ℕ → LirsCache → Option LirsCache
resize_loop zero c = none
resize_loop (suc fuel) c = elim (ltb (sub64 c.capacity c.hir_capacity) c.stats.lir_count) [
  | false ↦ some c
  | true ↦ elim c.s_stack [
    | [] ↦ some c
    | id ∷ rest ↦ elim (c.blocks id) [
      | none ↦ none
      | some b ↦ elim (type_code b.kind == 0) [
        | false ↦ resize_loop fuel c
        | true ↦ resize_loop fuel (
            set_block id
              (some (record b { kind = hir_resident; in_q_queue = true; in_s_stack = false }))
              (record (lirs_demote_lir id b c) {
                s_stack = rest;
                s_stack_size = sub64 c.s_stack_size 1;
              }))
      ]
    ]
  ]
]

unfoldable pub lirs_resize : ℕ → ℕ → LirsCache → Option LirsCache
unfolding resize_loop
lirs_resize fuel new_capacity c =
    let resized = record c {
      capacity = new_capacity;
      hir_capacity = hir_capacity_of new_capacity;
    } in
    elim (resize_loop fuel resized) [ none ↦ none | some c' ↦ lirs_evict_hir c' ]
