-- ===== src/Numa.antt =====
-- The topology of src/os/numa.h and numa.c: its types, and what is read of them. The state is
-- `g_numa_topology`, its arrays functions of the index. An argument of type `int` is `none` where it
-- is negative, and so is the result NUMA_DEFAULT_NODE, which is -1.
pub mod Ops
pub mod Nearest
pub mod Roomier
use nomalloc.Prelude.{
  ℕ, zero, suc, ◌+◌, Bool, true, false, not, ◌&&◌, ◌||◌, Option, none, some, List, [], ◌∷◌, ltb,
  leb, ◌==◌, if◌then◌else◌, u64,
}

pub record NumaNodeInfo : Type 0 where
  pub node_id : ℕ
  pub total_memory : ℕ
  pub free_memory : ℕ
  pub used_memory : ℕ
  pub cpu_count : ℕ
  pub cpus : List ℕ
  pub allocations : ℕ
  pub allocations_bytes : ℕ

pub record NumaTopology : Type 0 where
  pub available : Bool
  pub initialized : Bool
  pub num_nodes : ℕ
  pub num_cpus : ℕ
  pub nodes : ℕ → NumaNodeInfo
  pub cpu_to_node : ℕ → ℕ
  pub node_distances : ℕ → ℕ → ℕ
  pub preferred_node : ℕ
  pub current_node : ℕ
  pub interleaved_allocations : Bool

abbrev pub numa_max_nodes : ℕ
numa_max_nodes = 16

abbrev pub numa_max_cpus : ℕ
numa_max_cpus = 256

unfoldable pub numa_get_node_for_cpu : Option ℕ → NumaTopology → Option ℕ
numa_get_node_for_cpu none s = none
numa_get_node_for_cpu (some cpu) s =
    if leb numa_max_cpus cpu then none else some (s.cpu_to_node cpu)

-- `cpu` is what `sched_getcpu` answers.
unfoldable pub numa_get_current_cpu : Option ℕ → NumaTopology → Option ℕ
numa_get_current_cpu cpu s = if s.available then cpu else some 0

unfoldable pub numa_get_current_node : Option ℕ → NumaTopology → Option ℕ
unfolding numa_get_node_for_cpu numa_get_current_cpu
numa_get_current_node cpu s =
    if s.available then numa_get_node_for_cpu (numa_get_current_cpu cpu s) s else some 0

unfoldable pub numa_get_node_memory : Option ℕ → NumaTopology → ℕ
numa_get_node_memory none s = 0
numa_get_node_memory (some node) s = if leb s.num_nodes node then 0 else (s.nodes node).total_memory

unfoldable pub numa_get_node_free_memory : Option ℕ → NumaTopology → ℕ
numa_get_node_free_memory none s = 0
numa_get_node_free_memory (some node) s =
    if leb s.num_nodes node then 0 else (s.nodes node).free_memory

-- The loops of the two totals, over the nodes below the count.
unfoldable pub total_memory_loop : ℕ → (ℕ → NumaNodeInfo) → ℕ
total_memory_loop zero nodes = 0
total_memory_loop (suc n) nodes = u64 (total_memory_loop n nodes + (nodes n).total_memory)

unfoldable pub numa_get_total_memory : NumaTopology → ℕ
unfolding total_memory_loop
numa_get_total_memory s = total_memory_loop s.num_nodes s.nodes

unfoldable pub total_free_loop : ℕ → (ℕ → NumaNodeInfo) → ℕ
total_free_loop zero nodes = 0
total_free_loop (suc n) nodes = u64 (total_free_loop n nodes + (nodes n).free_memory)

unfoldable pub numa_get_total_free_memory : NumaTopology → ℕ
unfolding total_free_loop
numa_get_total_free_memory s = total_free_loop s.num_nodes s.nodes

unfoldable pub numa_get_node_distance : Option ℕ → Option ℕ → NumaTopology → ℕ
numa_get_node_distance none node2 s = 255
numa_get_node_distance (some node1) none s = 255
numa_get_node_distance (some node1) (some node2) s =
    if leb s.num_nodes node1 || leb s.num_nodes node2 then 255 else s.node_distances node1 node2

-- The test in the loop of `numa_get_nearest_node` at node `i`.
unfoldable pub is_nearer : NumaTopology → ℕ → ℕ → ℕ → Bool
unfolding numa_get_node_distance numa_get_node_free_memory
is_nearer s node i min_distance =
    not (i == node)
    && ltb (numa_get_node_distance (some node) (some i) s) min_distance
    && ltb 0 (numa_get_node_free_memory (some i) s)

-- The loop of `numa_get_nearest_node` from node `i`, with the number of nodes that are left.
unfoldable pub nearest_loop : NumaTopology → ℕ → ℕ → ℕ → Option ℕ → ℕ → Option ℕ
unfolding numa_get_node_distance is_nearer
nearest_loop s node zero i nearest min_distance = nearest
nearest_loop s node (suc n) i nearest min_distance =
    let nearer = is_nearer s node i min_distance in
    nearest_loop s node n (i + 1) (if nearer then some i else nearest)
      (if nearer then numa_get_node_distance (some node) (some i) s else min_distance)

unfoldable pub numa_get_nearest_node : Option ℕ → NumaTopology → Option ℕ
unfolding nearest_loop
numa_get_nearest_node none s = none
numa_get_nearest_node (some node) s =
    if leb s.num_nodes node then none else nearest_loop s node s.num_nodes 0 none 255

-- The test in the loop of `numa_get_best_node_for_size` at node `i`.
unfoldable pub is_roomier : NumaTopology → ℕ → ℕ → ℕ → Bool
unfolding numa_get_node_distance numa_get_node_free_memory
is_roomier s i best_node best_free =
    not (i == best_node)
    && ltb best_free (numa_get_node_free_memory (some i) s)
    && ltb (numa_get_node_distance (some best_node) (some i) s) 20

-- The loop of `numa_get_best_node_for_size`, as above.
unfoldable pub best_loop : NumaTopology → ℕ → ℕ → ℕ → ℕ → ℕ
unfolding is_roomier numa_get_node_free_memory
best_loop s zero i best_node best_free = best_node
best_loop s (suc n) i best_node best_free =
    let roomier = is_roomier s i best_node best_free in
    best_loop s n (i + 1) (if roomier then i else best_node)
      (if roomier then numa_get_node_free_memory (some i) s else best_free)

-- The size is not used.
unfoldable pub numa_get_best_node_for_size : ℕ → NumaTopology → Option ℕ
unfolding best_loop numa_get_node_free_memory
numa_get_best_node_for_size size s =
    if s.available
    then some (
        best_loop s s.num_nodes 0 s.preferred_node
          (numa_get_node_free_memory (some s.preferred_node) s))
    else none
