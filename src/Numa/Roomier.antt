-- ===== src/Numa/Roomier.antt =====
-- The choice of a node by its free memory in src/os/numa.h.
use nomalloc.Prelude.{
  ℕ, zero, suc, ◌+◌, ◌≤◌, ◌<◌, ◌≡◌, refl, inl, inr, true, false, some, leb, arith, Bool-cases,
}
use nomalloc.Numa.{
  NumaTopology, numa_get_node_distance, numa_get_node_free_memory, numa_get_best_node_for_size,
  best_loop, is_roomier,
}
use nomalloc.Numa.Nearest.{next}

-- The nodes that are reached from one node over hops of a distance below 20, each to a node with
-- more free memory.
pub data Hops (s : NumaTopology) (start : ℕ) : ℕ → Type 0 where
  here : Hops s start start
  hop :
      {b c : ℕ}
      → Hops s start b
      → c < s.num_nodes
      → (s.nodes b).free_memory < (s.nodes c).free_memory
      → s.node_distances b c < 20
      → Hops s start c

-- No node from `b` on and before `n` is both close to `b` and roomier.
abbrev pub IsLast : NumaTopology → ℕ → ℕ → Type 0
IsLast s n b =
    (j : ℕ)
    → j < n
    → (b < j) × ((s.nodes b).free_memory < (s.nodes j).free_memory)
    → 20 ≤ s.node_distances b j

module _ (s : NumaTopology) (start : ℕ) where
  roomier_here :
      (b i : ℕ)
      → b < s.num_nodes
      → i < s.num_nodes
      → is_roomier s i b (s.nodes b).free_memory ≡ true
      → ((s.nodes b).free_memory < (s.nodes i).free_memory)
        × (s.node_distances b i < 20)
        × (numa_get_node_free_memory (some i) s ≡ (s.nodes i).free_memory)
  unfolding is_roomier numa_get_node_distance numa_get_node_free_memory
  roomier_here b i inside below e = (ground arith, ground arith, ground arith)

  not_roomier :
      (b i : ℕ)
      → b < s.num_nodes
      → i < s.num_nodes
      → is_roomier s i b (s.nodes b).free_memory ≡ false
      → (b < i) × ((s.nodes b).free_memory < (s.nodes i).free_memory)
      → 20 ≤ s.node_distances b i
  unfolding is_roomier numa_get_node_distance numa_get_node_free_memory
  not_roomier b i inside below e (later, roomier) = ground arith

  best_loop-Hops :
      (left i b : ℕ)
      → i + left ≡ s.num_nodes
      → b < s.num_nodes
      → Hops s start b
      → IsLast s i b
      → let found = best_loop s left i b (s.nodes b).free_memory in
        Hops s start found × IsLast s s.num_nodes found
  unfolding best_loop
  best_loop-Hops zero i b e inside way last = (way, λ j lower h. last j (omega arith) h)
  best_loop-Hops (suc left) i b e inside way last =
      let below : i < s.num_nodes = omega arith in
      elim (Bool-cases (is_roomier s i b (s.nodes b).free_memory)) [
        | inl r ↦
            let (more, close, same) = roomier_here b i inside below r in
            rw (r, same)
              (best_loop-Hops left (i + 1) i (omega arith) below (hop way below more close)
                (λ j lower (later, h). absurd (omega arith)))
        | inr r ↦ rw r (
            best_loop-Hops left (i + 1) b (omega arith) inside way (
              next (λ j. (b < j) × ((s.nodes b).free_memory < (s.nodes j).free_memory))
                (λ j. 20 ≤ s.node_distances b j) i last (not_roomier b i inside below r)))
      ]

-- Where the topology is there and has the preferred node, the answer of
-- `numa_get_best_node_for_size`, whatever the size, is reached from that node over hops of a
-- distance below 20, each to a node with more free memory, and no later node is both closer to it
-- than 20 and roomier.
pub best_node_for_size-Hops :
    (size : ℕ) (s : NumaTopology)
    → s.available ≡ true
    → s.preferred_node < s.num_nodes
    → (k : ℕ) × (numa_get_best_node_for_size size s ≡ some k)
      × Hops s s.preferred_node k
      × IsLast s s.num_nodes k
unfolding numa_get_best_node_for_size numa_get_node_free_memory
best_node_for_size-Hops size s up inside =
    let room : leb s.num_nodes s.preferred_node ≡ false = ground arith in
    let (way, last) =
      best_loop-Hops s s.preferred_node s.num_nodes 0 s.preferred_node (omega arith) inside here
        (λ j lower h. absurd (omega arith)) in
    (
      best_loop s s.num_nodes 0 s.preferred_node (s.nodes s.preferred_node).free_memory,
      rw (up, room) refl,
      way,
      last,
    )
