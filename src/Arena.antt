-- ===== src/Arena.antt =====
-- The arena manager of src/memory/arena.c: the table of arenas, their creation, destruction and
-- lookup. The chunk lists of an arena are not modelled; `arena_destroy` is that of an arena
-- without chunks. The places of the array past `num_arenas` hold NULL.
pub mod Manager
pub mod Heap
pub mod Guess
pub mod Sound
use nomalloc.Prelude.{
  ℕ, zero, suc, ◌+◌, ◌-◌, Bool, true, false, List, [], ◌∷◌, Option, none, some, ltb, leb, ◌==◌,
  if◌then◌else◌, get_or, set, replicate,
}
use nomalloc.Memory.{Memory}
use nomalloc.Libc.{Libc, Answer}

abbrev pub max_arenas : ℕ
max_arenas = 64

abbrev pub max_arena_chunks : ℕ
max_arena_chunks = 1024

pub record Arena : Type 0 where
  pub address : ℕ
  pub id : ℕ
  pub numa_node : ℕ
  pub num_chunks : ℕ
  pub max_chunks : ℕ
  pub allocated_bytes : ℕ
  pub freed_bytes : ℕ
  pub alloc_ops : ℕ
  pub free_ops : ℕ
  pub tcache_hits : ℕ
  pub tcache_misses : ℕ
  pub active : Bool

pub record ArenaManager : Type 0 where
  pub arenas : List (Option Arena)
  pub num_arenas : ℕ
  pub numa_aware : Bool
  pub total_allocated : ℕ
  pub total_freed : ℕ

unfoldable pub arena_manager_init : ArenaManager
arena_manager_init = record {
  arenas = replicate max_arenas none;
  num_arenas = 0;
  numa_aware = true;
  total_allocated = 0;
  total_freed = 0;
}

unfoldable pub new_arena : ℕ → ℕ → ℕ → Arena
new_arena address id numa_node = record {
  address = address;
  id = id;
  numa_node = numa_node;
  num_chunks = 0;
  max_chunks = max_arena_chunks;
  allocated_bytes = 0;
  freed_bytes = 0;
  alloc_ops = 0;
  free_ops = 0;
  tcache_hits = 0;
  tcache_misses = 0;
  active = true;
}

-- What a call on the manager leaves, with the arena it returns (`none` is NULL).
pub record Outcome (Heap : Type 0) : Type 0 where
  pub arena : Option Arena
  pub manager : ArenaManager
  pub heap : Heap
  pub memory : Memory

module _ (L : Libc) (arena_bytes : ℕ) where
  -- `arena_bytes` is `sizeof(struct arena)`.
  unfoldable pub arena_create : ℕ → ArenaManager → L.Heap → Memory → Outcome L.Heap
  arena_create numa_node g h m =
      if leb max_arenas g.num_arenas
      then record { arena = none; manager = g; heap = h; memory = m }
      else let got = L.malloc arena_bytes h m in
        let arena = new_arena got.ptr g.num_arenas numa_node in
        if got.ptr == 0
        then record { arena = none; manager = g; heap = got.heap; memory = got.memory }
        else record {
          arena = some arena;
          manager = record g {
            arenas = set g.arenas g.num_arenas (some arena);
            num_arenas = g.num_arenas + 1;
          };
          heap = got.heap;
          memory = got.memory;
        }

module _ (L : Libc) where
  unfoldable pub arena_destroy : Arena → ArenaManager → L.Heap → Memory → Outcome L.Heap
  arena_destroy arena g h m =
      let g' =
        if ltb arena.id max_arenas
        then record g {
          arenas = set g.arenas arena.id none;
          num_arenas = if arena.id + 1 == g.num_arenas then g.num_arenas - 1 else g.num_arenas;
        }
        else g in
      let gone = L.free arena.address h m in
      record { arena = none; manager = g'; heap = gone.heap; memory = gone.memory }

  -- The loop of `arena_manager_shutdown` at index `i`, with `left` places to go. Its bound
  -- `num_arenas` is read anew in each round.
  unfoldable pub shutdown_loop : ℕ → ℕ → ArenaManager → L.Heap → Memory → Outcome L.Heap
  shutdown_loop zero i g h m = record { arena = none; manager = g; heap = h; memory = m }
  shutdown_loop (suc left) i g h m =
      if ltb i g.num_arenas
      then elim (get_or g.arenas i none) [
        | none ↦ shutdown_loop left (i + 1) g h m
        | some arena ↦
            let o = arena_destroy arena g h m in
            shutdown_loop left (i + 1) (record (o.manager) { arenas = set o.manager.arenas i none })
              o.heap o.memory
      ]
      else record { arena = none; manager = g; heap = h; memory = m }

  unfoldable pub arena_manager_shutdown : ArenaManager → L.Heap → Memory → Outcome L.Heap
  arena_manager_shutdown g h m =
      let o = shutdown_loop max_arenas 0 g h m in
      record o {
        manager = record {
          arenas = replicate max_arenas none;
          num_arenas = 0;
          numa_aware = false;
          total_allocated = 0;
          total_freed = 0;
        };
      }

-- `thread_arena_id` is the thread-local index, `none` its initial -1.
unfoldable pub arena_get_current : Option ℕ → ArenaManager → Option Arena × Option ℕ
arena_get_current thread_arena_id g =
    if g.num_arenas == 0 then (none, thread_arena_id) else elim thread_arena_id [
      | none ↦ (get_or g.arenas 0 none, some 0)
      | some id ↦
          if ltb id g.num_arenas
          then (get_or g.arenas id none, some id)
          else (get_or g.arenas 0 none, some 0)
    ]

-- `none` is the read through a NULL entry of the table, which the loop does not guard against.
unfoldable pub numa_loop : ℕ → List (Option Arena) → ℕ → Option (Option Arena)
numa_loop zero arenas node = some none
numa_loop (suc left) [] node = some none
numa_loop (suc left) (none ∷ arenas) node = none
numa_loop (suc left) (some arena ∷ arenas) node =
    if arena.numa_node == node then some (some arena) else numa_loop left arenas node

unfoldable pub arena_get_by_numa_node : ArenaManager → ℕ → Option (Option Arena)
arena_get_by_numa_node g node = numa_loop g.num_arenas g.arenas node

-- `id` is not negative; a negative one is refused like one that is too large.
unfoldable pub arena_get_by_id : ℕ → ArenaManager → Option Arena
arena_get_by_id id g = if leb g.num_arenas id then none else get_or g.arenas id none
