-- ===== src/Tests/Systems.antt =====
-- Huge pages at 2^22, and three memory nodes.
use mathlib.Core.Option
use nomalloc.Prelude.{
  ℕ, ◌*◌, ◌||◌, ◌≡◌, refl, true, [], ◌∷◌, none, some, ◌==◌, if◌then◌else◌, arith,
}
use nomalloc.HugePages.{HugepageManager, System, hugepage_align_size, hugepage_get_active_bytes}
use nomalloc.HugePages.Ops.{
  no_hugepage_stats, default_hugepage_config, hugepage_alloc, hugepage_free,
}
use nomalloc.HugePages.Balance.{hugepage_free-hugepage_alloc}
use nomalloc.Numa.{
  NumaTopology, numa_get_nearest_node, numa_get_best_node_for_size, nearest_loop, best_loop,
  is_nearer, is_roomier, numa_get_node_distance, numa_get_node_free_memory,
}
use nomalloc.Numa.Ops.{
  Libnuma, Machine, no_topology, numa_node_info_init, numa_init, init_nodes, init_node, single_node,
}
use nomalloc.Numa.Nearest.{IsNearest, numa_get_nearest_node_lem}
use nomalloc.Numa.Roomier.{Hops, IsLast, best_node_for_size-Hops}

-- A system that grants every request.
abbrev generous : System
generous = record {
  mmap_2mb = λ n. some 4194304;
  mmap_1gb = λ n. some 4194304;
  mmap = λ n. some 8388608;
  page = 4096;
}

abbrev manager : HugepageManager
manager = record {
  initialized = true;
  available = true;
  config = default_hugepage_config;
  pages_2mb = [];
  pages_1gb = [];
  stats = no_hugepage_stats;
  unmapped = [];
  nr_hugepages = none;
}

hugepage_free-hugepage_alloc_example :
    ((hugepage_alloc generous 3000000 manager).1 ≡ 4194304)
    × ((hugepage_free 4194304 3000000 ((hugepage_alloc generous 3000000 manager).0)).unmapped
        ≡ (4194304, hugepage_align_size 3000000) ∷ [])
    × (hugepage_get_active_bytes
          (hugepage_free 4194304 3000000 ((hugepage_alloc generous 3000000 manager).0))
        ≡ hugepage_get_active_bytes manager)
hugepage_free-hugepage_alloc_example =
    hugepage_free-hugepage_alloc generous manager 3000000 4194304 refl (omega arith) (omega arith)
      (omega arith) refl refl (omega arith)

-- Three nodes, of which node 1 stands between the other two.
abbrev distances : ℕ → ℕ → ℕ
distances i j = if i == j then 10 else if i == 1 || j == 1 then 15 else 30

abbrev three_nodes : NumaTopology
three_nodes = record no_topology {
  available = true;
  initialized = true;
  num_nodes = 3;
  nodes = λ i. record (numa_node_info_init i) { free_memory = 100 * i };
  node_distances = distances;
}

numa_get_nearest_node_lem_example :
    (found : ℕ) × IsNearest three_nodes 0 three_nodes.num_nodes
      (numa_get_nearest_node (some 0) three_nodes)
      found
numa_get_nearest_node_lem_example = numa_get_nearest_node_lem three_nodes 0 (omega arith)

best_node_for_size-Hops_example :
    (k : ℕ) × (numa_get_best_node_for_size 64 three_nodes ≡ some k)
    × Hops three_nodes 0 k
    × IsLast three_nodes 3 k
best_node_for_size-Hops_example = best_node_for_size-Hops 64 three_nodes refl (omega arith)

nearest_of_three : numa_get_nearest_node (some 0) three_nodes ≡ some 1
unfolding numa_get_nearest_node nearest_loop is_nearer numa_get_node_distance
    numa_get_node_free_memory numa_node_info_init
nearest_of_three = refl

-- The node is at a distance of 30 from the preferred one.
best_of_three : numa_get_best_node_for_size 64 three_nodes ≡ some 2
unfolding numa_get_best_node_for_size best_loop is_roomier numa_get_node_distance
    numa_get_node_free_memory numa_node_info_init
best_of_three = refl

-- A node of 1000 bytes of which 900 are free, as libnuma has them.
abbrev one_node : Libnuma
one_node = record {
  max_node = 0;
  configured_cpus = 2;
  node_size = λ i. 1000;
  has_cpu = λ i cpu. true;
  distance = λ i j. 10;
}

abbrev sysconf : Machine
sysconf = record { processors = 2; phys_pages = 16; avphys_pages = 8; page = 4096 }

used_on_one_node :
    Option.map (λ (s : NumaTopology). (s.nodes 0).used_memory) (numa_init (some one_node) sysconf)
    ≡ some 0
unfolding numa_init init_nodes init_node
used_on_one_node = refl

used_without_libnuma :
    Option.map (λ (s : NumaTopology). (s.nodes 0).used_memory) (numa_init none sysconf) ≡ some 32768
unfolding numa_init single_node
used_without_libnuma = refl
