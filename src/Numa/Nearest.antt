-- ===== src/Numa/Nearest.antt =====
-- The searches of the topology of src/os/numa.c.
use native.Mathlib.Decide.{dec_lt}
use nomalloc.Prelude.{
  ℕ, zero, suc, ◌+◌, ◌≤◌, ◌<◌, ◌≡◌, ◌≢◌, refl, sym, subst, inl, inr, true, false, Option, none,
  some, leb, if◌then◌else◌, arith, Bool-cases,
}
use nomalloc.Numa.{
  NumaTopology, numa_get_node_distance, numa_get_node_free_memory, numa_get_nearest_node,
  nearest_loop, is_nearer,
}

-- A node other than `node` that has free memory.
abbrev pub IsOther : NumaTopology → ℕ → ℕ → Type 0
IsOther s node i = (i < s.num_nodes) × (i ≢ node) × (0 < (s.nodes i).free_memory)

-- The answer of the search among the nodes below `n`: the first of the least distance, which is
-- below 255.
abbrev pub IsNearest : NumaTopology → ℕ → ℕ → Option ℕ → ℕ → Type 0
IsNearest s node n none least =
    (least ≡ 255) × ((i : ℕ) → i < n → IsOther s node i → 255 ≤ s.node_distances node i)
IsNearest s node n (some k) least =
    (k < n)
    × IsOther s node k
    × (s.node_distances node k ≡ least)
    × (least < 255)
    × ((i : ℕ) → i < n → IsOther s node i → least ≤ s.node_distances node i)
    × ((i : ℕ) → i < k → IsOther s node i → least < s.node_distances node i)

pub next :
    (Q P : ℕ → Type 0) (i : ℕ)
    → ((j : ℕ) → j < i → Q j → P j)
    → (Q i → P i)
    → (j : ℕ) → j < i + 1
    → Q j
    → P j
next Q P i before here j lower q = elim (dec_lt j i) [
  | yes below ↦ before j below q
  | no not_below ↦ let same : i ≡ j = omega arith in subst P same (here (subst Q (sym same) q))
]

module _ (s : NumaTopology) (node : ℕ) (inside : node < s.num_nodes) where
  nearer_here :
      (i least : ℕ)
      → i < s.num_nodes
      → is_nearer s node i least ≡ true
      → IsOther s node i
        × (s.node_distances node i < least)
        × (numa_get_node_distance (some node) (some i) s ≡ s.node_distances node i)
  unfolding is_nearer numa_get_node_distance numa_get_node_free_memory
  nearer_here i least below e =
      ((below, λ same. ground arith, ground arith), ground arith, ground arith)

  not_nearer :
      (i least : ℕ)
      → is_nearer s node i least ≡ false
      → IsOther s node i
      → least ≤ s.node_distances node i
  unfolding is_nearer numa_get_node_distance numa_get_node_free_memory
  not_nearer i least e (below, other, room) = ground arith

  IsNearest-next :
      (i : ℕ) (nearest : Option ℕ) (least : ℕ)
      → i < s.num_nodes
      → IsNearest s node i nearest least
      → let nearer = is_nearer s node i least in
        IsNearest s node
          (i + 1)
          (if nearer then some i else nearest)
          (if nearer then numa_get_node_distance (some node) (some i) s else least)
  IsNearest-next i none least below (start, far) = elim (Bool-cases (is_nearer s node i least)) [
    | inl e ↦
        let (other, nearer, same) = nearer_here i least below e in
        rw (e, same)
          (
            omega arith,
            other,
            refl,
            omega arith,
            next (IsOther s node) (λ j. s.node_distances node i ≤ s.node_distances node j) i
                (λ j lower o. omega (arith, far j lower o)) (λ o. omega arith),
            λ j lower o. omega (arith, far j lower o),
          )
    | inr e ↦ rw e (
      start,
      next (IsOther s node) (λ j. 255 ≤ s.node_distances node j) i far
          (λ o. omega (arith, not_nearer i least e o)),
    )
  ]
  IsNearest-next i (some k) least below (lower_k, other_k, at_k, short, least_of, first) =
      elim (Bool-cases (is_nearer s node i least)) [
        | inl e ↦
            let (other, nearer, same) = nearer_here i least below e in
            rw (e, same)
              (
                omega arith,
                other,
                refl,
                omega arith,
                next (IsOther s node) (λ j. s.node_distances node i ≤ s.node_distances node j) i
                    (λ j lower o. omega (arith, least_of j lower o)) (λ o. omega arith),
                λ j lower o. omega (arith, least_of j lower o),
              )
        | inr e ↦ rw e (
          omega arith,
          other_k,
          at_k,
          short,
          next (IsOther s node) (λ j. least ≤ s.node_distances node j) i least_of
              (not_nearer i least e),
          first,
        )
      ]

  nearest_loop-IsNearest :
      (left i : ℕ) (nearest : Option ℕ) (least : ℕ)
      → i + left ≡ s.num_nodes
      → IsNearest s node i nearest least
      → (found : ℕ) × IsNearest s node s.num_nodes (nearest_loop s node left i nearest least) found
  unfolding nearest_loop
  nearest_loop-IsNearest zero i nearest least e h =
      (least, subst (λ (n : ℕ). IsNearest s node n nearest least) (omega arith) h)
  nearest_loop-IsNearest (suc left) i nearest least e h =
      nearest_loop-IsNearest left (i + 1) (if is_nearer s node i least then some i else nearest)
        (if is_nearer s node i least then numa_get_node_distance (some node) (some i) s else least)
        (omega arith) (IsNearest-next i nearest least (omega arith) h)

  -- For a node of the topology, `numa_get_nearest_node` gives the first of the other nodes with
  -- free memory that have the least distance from it, if that is below 255, and else -1.
  pub numa_get_nearest_node_lem :
      (found : ℕ) × IsNearest s node s.num_nodes (numa_get_nearest_node (some node) s) found
  unfolding numa_get_nearest_node
  numa_get_nearest_node_lem =
      let here : leb s.num_nodes node ≡ false = ground arith in
      rw here (
        nearest_loop-IsNearest s.num_nodes 0 none 255 (omega arith)
          (refl, λ i lower o. absurd (omega arith)))
