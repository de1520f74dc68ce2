-- ===== src/Lirs.antt =====
-- The LIRS cache of src/cache/lirs/lirs.c. A block stands at its address. `s_stack` lists the
-- stack from its bottom, the end of the list of the source, and `q_queue` the queue from its head.
-- `none` is a fault; the lock and the logging are left out.
pub mod Limits
pub mod Insert
pub mod Clear
pub mod Vacant
pub mod Ops
use nomalloc.Prelude.{
  ℕ, zero, suc, ◌+◌, ◌-◌, ◌*◌, ◌/◌, Bool, true, false, not, ◌&&◌, ◌||◌, List, [], ◌∷◌, ◌++◌, Option,
  none, some, ltb, leb, ◌==◌, if◌then◌else◌, u64, sub64, bit_and,
}
use nomalloc.Hash.{hash32_ptr}

pub data LirsBlockType : Type 0 where
  lir hir_resident hir_non_resident : LirsBlockType

abbrev pub type_code : LirsBlockType → ℕ
type_code lir = 0
type_code hir_resident = 1
type_code hir_non_resident = 2

pub record LirsBlock : Type 0 where
  pub key : ℕ
  pub value : ℕ
  pub size : ℕ
  pub kind : LirsBlockType
  pub access_time : ℕ
  pub reuse_distance : ℕ
  pub in_s_stack : Bool
  pub in_q_queue : Bool

pub record LirsStats : Type 0 where
  pub hits : ℕ
  pub misses : ℕ
  pub evictions : ℕ
  pub promotions : ℕ
  pub demotions : ℕ
  pub lir_count : ℕ
  pub hir_resident_count : ℕ
  pub hir_non_resident_count : ℕ
  pub total_size : ℕ
  pub max_size : ℕ

-- `evicted` is what the callback was called with, key, value and size, the last call first;
-- `has_callback` tells whether there is one.
pub record LirsCache : Type 0 where
  pub capacity : ℕ
  pub hir_capacity : ℕ
  pub max_size : ℕ
  pub s_stack : List ℕ
  pub q_queue : List ℕ
  pub s_stack_size : ℕ
  pub q_queue_size : ℕ
  pub hash_table : ℕ → List ℕ
  pub hash_table_mask : ℕ
  pub blocks : ℕ → Option LirsBlock
  pub stats : LirsStats
  pub current_time : ℕ
  pub has_callback : Bool
  pub evicted : List (ℕ × ℕ × ℕ)

-- `(size_t)(capacity * LIRS_HIR_RATIO)`, with the ratio of 1 in 100: up to 2^50 the product of the
-- two `double` values has the same whole part.
unfoldable pub hir_capacity_of : ℕ → ℕ
hir_capacity_of capacity = if ltb 2 (capacity / 100) then capacity / 100 else 2

unfoldable pub lirs_hash_index : ℕ → ℕ → ℕ
lirs_hash_index key mask = bit_and (hash32_ptr key) mask

-- The loop that doubles the size of the table; `none` if the fuel runs out.
unfoldable pub hash_size_loop : ℕ → ℕ → ℕ → Option ℕ
hash_size_loop zero capacity size = none
hash_size_loop (suc fuel) capacity size =
    let rest = hash_size_loop fuel capacity (u64 (size * 2)) in
    if ltb size (u64 (capacity * 2)) then rest else some size

abbrev pub no_lirs_stats : ℕ → LirsStats
no_lirs_stats max_size = record {
  hits = 0;
  misses = 0;
  evictions = 0;
  promotions = 0;
  demotions = 0;
  lir_count = 0;
  hir_resident_count = 0;
  hir_non_resident_count = 0;
  total_size = 0;
  max_size = max_size;
}

-- `structure` and `table` are the C library's answers; the outer `none` is a loop without end.
unfoldable pub lirs_create : ℕ → ℕ → ℕ → ℕ → Option (Option LirsCache)
lirs_create structure table capacity max_size =
    if structure == 0 then some none else elim (hash_size_loop 65 capacity 1) [
      | none ↦ none
      | some size ↦
          if table == 0
          then some none
          else some (
              some (record {
                capacity = capacity;
                hir_capacity = hir_capacity_of capacity;
                max_size = max_size;
                s_stack = [];
                q_queue = [];
                s_stack_size = 0;
                q_queue_size = 0;
                hash_table = λ i. [];
                hash_table_mask = sub64 size 1;
                blocks = λ a. none;
                stats = no_lirs_stats max_size;
                current_time = 0;
                has_callback = false;
                evicted = [];
              }))
    ]

unfoldable pub drop_node : ℕ → List ℕ → List ℕ
drop_node id [] = []
drop_node id (x ∷ xs) = if x == id then xs else x ∷ drop_node id xs

unfoldable pub set_block : ℕ → Option LirsBlock → LirsCache → LirsCache
set_block id b c = record c { blocks = λ a. if a == id then b else c.blocks a }

-- `lirs_remove_hash` and then `lirs_block_destroy`.
unfoldable pub discard : ℕ → LirsBlock → LirsCache → LirsCache
discard id b c =
    let gone = set_block id none (record c { hash_table = λ i. drop_node id (c.hash_table i) }) in
    if c.has_callback && not (b.value == 0)
    then record gone { evicted = (b.key, b.value, b.size) ∷ c.evicted }
    else gone

-- The loop of `lirs_find_block`. At the end of the bucket `hlist_for_each_entry` goes on with the
-- address that lies the offset of `hash_node` below NULL, whose key is read.
unfoldable pub find_in : List ℕ → ℕ → (ℕ → Option LirsBlock) → Option (ℕ × LirsBlock)
find_in [] key blocks = none
find_in (id ∷ ids) key blocks =
    let rest = find_in ids key blocks in
    elim (blocks id) [ none ↦ none | some b ↦ if b.key == key then some (id, b) else rest ]

unfoldable pub lirs_find_block : LirsCache → ℕ → Option (ℕ × LirsBlock)
lirs_find_block c key = find_in (c.hash_table (lirs_hash_index key c.hash_table_mask)) key c.blocks

-- The loop of `lirs_prune_s_stack` over the stack from its bottom.
unfoldable pub prune_loop : List ℕ → LirsCache → Option LirsCache
prune_loop [] c = some (record c { s_stack = [] })
prune_loop (id ∷ rest) c = elim (c.blocks id) [
  | none ↦ none
  | some b ↦
      let b' = record b { in_s_stack = false } in
      let c' = set_block id (some b') (record c { s_stack_size = sub64 c.s_stack_size 1 }) in
      let pruned = prune_loop rest (if type_code b.kind == 2 then discard id b' c' else c') in
      if type_code b.kind == 0 && b.in_s_stack
      then some (record c { s_stack = id ∷ rest })
      else pruned
]

unfoldable pub lirs_prune_s_stack : LirsCache → Option LirsCache
lirs_prune_s_stack c = prune_loop c.s_stack c

abbrev pub evicted_stats : ℕ → LirsStats → LirsStats
evicted_stats size s = record s {
  hir_resident_count = sub64 s.hir_resident_count 1;
  hir_non_resident_count = u64 (s.hir_non_resident_count + 1);
  total_size = sub64 s.total_size size;
  evictions = u64 (s.evictions + 1);
}

-- The loop of `lirs_evict_hir` over the queue from its head.
unfoldable pub evict_loop : List ℕ → LirsCache → Option LirsCache
evict_loop [] c = some (record c { q_queue = [] })
evict_loop (id ∷ rest) c =
    let evicted : Option LirsCache = elim (c.blocks id) [
      | none ↦ none
      | some b ↦
          let b' = record b { in_q_queue = false; kind = hir_non_resident } in
          let c' = set_block id (some b') (record c {
            q_queue_size = sub64 c.q_queue_size 1;
            stats = evicted_stats b.size c.stats;
          }) in
          evict_loop rest (if b.in_s_stack then c' else discard id b' c')
    ] in
    if ltb c.hir_capacity c.q_queue_size then evicted else some (record c { q_queue = id ∷ rest })

unfoldable pub lirs_evict_hir : LirsCache → Option LirsCache
lirs_evict_hir c = evict_loop c.q_queue c

unfoldable pub lirs_demote_lir : ℕ → LirsBlock → LirsCache → LirsCache
lirs_demote_lir id b c =
    let counted = record c {
      stats = record (c.stats) {
        lir_count = sub64 c.stats.lir_count 1;
        hir_resident_count = u64 (c.stats.hir_resident_count + 1);
        demotions = u64 (c.stats.demotions + 1);
      };
    } in
    if b.in_q_queue
    then set_block id (some (record b { kind = hir_resident })) counted
    else set_block id (some (record b { kind = hir_resident; in_q_queue = true })) (record counted {
      q_queue = c.q_queue ++ (id ∷ []);
      q_queue_size = u64 (c.q_queue_size + 1);
    })

-- What of the stack is below the block at hand is pruned, after a LIR block at the bottom is
-- demoted and unlinked.
unfoldable pub demote_bottom : List ℕ → LirsCache → Option LirsCache
demote_bottom [] c = none
demote_bottom (id ∷ rest) c = elim (c.blocks id) [
  | none ↦ none
  | some b ↦
      if type_code b.kind == 0
      then (let c' = lirs_demote_lir id b c in
          elim (c'.blocks id) [
            | none ↦ none
            | some b' ↦ some (
                set_block id (some (record b' { in_s_stack = false }))
                  (record c' { s_stack = rest; s_stack_size = sub64 c.s_stack_size 1 }))
          ])
      else some c
]

unfoldable pub lirs_promote_hir : ℕ → LirsBlock → LirsCache → Option LirsCache
lirs_promote_hir id b c =
    let counted = record c {
      stats = record (c.stats) {
        lir_count = u64 (c.stats.lir_count + 1);
        hir_resident_count = sub64 c.stats.hir_resident_count 1;
        promotions = u64 (c.stats.promotions + 1);
      };
    } in
    let c' =
      if b.in_q_queue
      then set_block id (some (record b { kind = lir; in_q_queue = false })) (record counted {
        q_queue = drop_node id c.q_queue;
        q_queue_size = sub64 c.q_queue_size 1;
      })
      else set_block id (some (record b { kind = lir })) counted in
    elim (demote_bottom c'.s_stack c') [
      | none ↦ none
      | some c'' ↦ elim (lirs_prune_s_stack c'') [ none ↦ none | some d ↦ lirs_evict_hir d ]
    ]
