-- ===== src/Numa/Ops.antt =====
-- The calls of src/os/numa.c.
use nomalloc.Prelude.{
  ℕ, zero, suc, ◌+◌, ◌*◌, Bool, true, false, not, ◌&&◌, Option, none, some, List, [], ◌∷◌, ltb, leb,
  ◌==◌, if◌then◌else◌, u64, sub64, length,
}
use nomalloc.Pages.{memory_alloc_aligned, memory_free_aligned}
use nomalloc.Numa.{NumaNodeInfo, NumaTopology, numa_max_nodes, numa_max_cpus, numa_get_current_node}

-- What libnuma answers, where the library is built with it and `numa_available` grants it.
-- `numa_node_size` has the total of a node as its result; the free bytes go to its second argument.
pub record Libnuma : Type 0 where
  pub max_node : ℕ
  pub configured_cpus : ℕ
  pub node_size : ℕ → ℕ
  pub has_cpu : ℕ → ℕ → Bool
  pub distance : ℕ → ℕ → ℕ

-- What `sysconf` and `get_page_size` answer.
pub record Machine : Type 0 where
  pub processors : ℕ
  pub phys_pages : ℕ
  pub avphys_pages : ℕ
  pub page : ℕ

unfoldable pub numa_node_info_init : ℕ → NumaNodeInfo
numa_node_info_init node_id = record {
  node_id = node_id;
  total_memory = 0;
  free_memory = 0;
  used_memory = 0;
  cpu_count = 0;
  cpus = [];
  allocations = 0;
  allocations_bytes = 0;
}

abbrev pub no_topology : NumaTopology
no_topology = record {
  available = false;
  initialized = false;
  num_nodes = 0;
  num_cpus = 0;
  nodes = λ i. numa_node_info_init 0;
  cpu_to_node = λ cpu. 0;
  node_distances = λ i j. 0;
  preferred_node = 0;
  current_node = 0;
  interleaved_allocations = false;
}

-- The processors from `j` that belong to a node, with the number of processors that are left.
unfoldable pub node_cpus : (ℕ → Bool) → ℕ → ℕ → List ℕ
node_cpus has zero j = []
node_cpus has (suc n) j = let rest = node_cpus has n (j + 1) in if has j then j ∷ rest else rest

-- One turn of the loop over the nodes; `free_memory` is set to the result of `numa_node_size`.
unfoldable pub init_node : Libnuma → ℕ → NumaTopology → NumaTopology
unfolding numa_node_info_init node_cpus
init_node lib i s =
    let found = node_cpus (lib.has_cpu i) lib.configured_cpus 0 in
    let info = record (numa_node_info_init i) {
      total_memory = lib.node_size i;
      free_memory = lib.node_size i;
      used_memory = sub64 (lib.node_size i) (lib.node_size i);
      cpu_count = length found;
      cpus = found;
    } in
    record s {
      nodes = λ a. if a == i then info else s.nodes a;
      cpu_to_node =
          λ cpu. if ltb cpu lib.configured_cpus && lib.has_cpu i cpu then i else s.cpu_to_node cpu;
    }

unfoldable pub init_nodes : Libnuma → ℕ → ℕ → NumaTopology → NumaTopology
unfolding init_node
init_nodes lib zero i s = s
init_nodes lib (suc n) i s = init_nodes lib n (i + 1) (init_node lib i s)

-- The single node where libnuma is not there.
unfoldable pub single_node : Machine → NumaNodeInfo
unfolding numa_node_info_init
single_node m =
    let total = u64 (m.phys_pages * m.page) in
    let free = u64 (m.avphys_pages * m.page) in
    record (numa_node_info_init 0) {
      total_memory = total;
      free_memory = free;
      used_memory = sub64 total free;
      cpu_count = m.processors;
      cpus = node_cpus (λ j. true) m.processors 0;
    }

-- A write behind the end of an array has no result. The source returns 0 always.
unfoldable pub numa_init : Option Libnuma → Machine → Option NumaTopology
unfolding init_nodes single_node
numa_init none m =
    if leb m.processors numa_max_cpus
    then some (record no_topology {
      num_nodes = 1;
      num_cpus = m.processors;
      nodes = λ i. if i == 0 then single_node m else numa_node_info_init 0;
      node_distances = λ i j. if i == 0 && j == 0 then 10 else 0;
      initialized = true;
    })
    else none
numa_init (some lib) m =
    let num_nodes = lib.max_node + 1 in
    let started = record no_topology {
      available = true;
      num_nodes = num_nodes;
      num_cpus = lib.configured_cpus;
    } in
    if leb num_nodes numa_max_nodes && leb lib.configured_cpus numa_max_cpus
    then some (record (init_nodes lib num_nodes 0 started) {
      node_distances = λ i j. if ltb i num_nodes && ltb j num_nodes then lib.distance i j else 0;
      initialized = true;
    })
    else none

-- The number of nodes stays.
unfoldable pub numa_shutdown : NumaTopology → NumaTopology
unfolding numa_node_info_init
numa_shutdown s =
    if s.initialized
    then record s {
      nodes = λ i. numa_node_info_init 0;
      cpu_to_node = λ cpu. 0;
      node_distances = λ i j. 0;
      initialized = false;
      available = false;
    }
    else s

-- `true` stands for 0. Where the topology is there, libnuma is told of the node too.
unfoldable pub numa_set_preferred_node : Option ℕ → NumaTopology → NumaTopology × Bool
numa_set_preferred_node none s = (s, false)
numa_set_preferred_node (some node) s =
    if leb s.num_nodes node then (s, false) else (record s { preferred_node = node }, true)

unfoldable pub numa_set_interleave : Bool → NumaTopology → NumaTopology
numa_set_interleave enable s = record s { interleaved_allocations = enable }

unfoldable pub count_allocation : ℕ → ℕ → NumaTopology → NumaTopology
count_allocation node size s = record s {
  nodes = λ i.
      if i == node
      then record (s.nodes i) {
        allocations = u64 ((s.nodes i).allocations + 1);
        allocations_bytes = u64 ((s.nodes i).allocations_bytes + size);
      }
      else s.nodes i;
}

-- The aligned block from `mmap`; 0 if it is refused.
abbrev pub any_block : ℕ → (ℕ → Option ℕ) → ℕ → ℕ
any_block page mmap size = elim (memory_alloc_aligned page mmap size page) [
  | none ↦ 0
  | some m ↦ m.ptr
]

-- `onnode` is libnuma's answer, from the node and the size to an address or 0.
unfoldable pub numa_alloc_on_node :
    (ℕ → ℕ → ℕ) → ℕ → (ℕ → Option ℕ) → ℕ → Option ℕ → NumaTopology → NumaTopology × ℕ
unfolding count_allocation
numa_alloc_on_node onnode page mmap size none s = (s, any_block page mmap size)
numa_alloc_on_node onnode page mmap size (some node) s =
    if s.available && ltb node s.num_nodes && not (onnode node size == 0)
    then (count_allocation node size s, onnode node size)
    else (s, any_block page mmap size)

unfoldable pub numa_alloc_local :
    (ℕ → ℕ → ℕ) → ℕ → (ℕ → Option ℕ) → Option ℕ → ℕ → NumaTopology → NumaTopology × ℕ
unfolding numa_alloc_on_node numa_get_current_node
numa_alloc_local onnode page mmap cpu size s =
    numa_alloc_on_node onnode page mmap size (numa_get_current_node cpu s) s

-- Where the topology is there and interleaving is on, the function, which has the name of
-- libnuma's, calls itself without end: `none`.
unfoldable pub numa_alloc_interleaved :
    (ℕ → ℕ → ℕ) → ℕ → (ℕ → Option ℕ) → ℕ → NumaTopology → Option (NumaTopology × ℕ)
unfolding numa_alloc_on_node
numa_alloc_interleaved onnode page mmap size s =
    if s.available && s.interleaved_allocations
    then none
    else some (numa_alloc_on_node onnode page mmap size (some s.preferred_node) s)

-- The range that is unmapped, if there is one. Where the topology is there the function calls
-- itself, as above.
unfoldable pub numa_free : ℕ → ℕ → ℕ → NumaTopology → Option (Option (ℕ × ℕ))
numa_free page ptr size s =
    if ptr == 0
    then some none
    else if s.available
    then none
    else some (memory_free_aligned page ptr size page)
