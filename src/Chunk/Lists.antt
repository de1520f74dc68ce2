-- ===== src/Chunk/Lists.antt =====
-- Properties of every run of a list, under the list operations of src/memory/chunk.c.
use mathlib.Core.Option.{some-injective}
use nomalloc.Prelude.{
  ℕ, ◌≡◌, subst, sym, inl, inr, List, [], ◌∷◌, ◌++◌, some, ◌==◌, get_elem?, Bool-cases, ==_iff,
}
use nomalloc.Chunk.Types.{ChunkRun}
use nomalloc.Chunk.Small.{with_list, update_run, remove_run}

abbrev pub All : (ChunkRun → Type 0) → List ChunkRun → Type 0
All P [] = Unit {0}
All P (r ∷ rs) = P r × All P rs

module _ (P : ChunkRun → Type 0) where
  pub All-append : (xs ys : List ChunkRun) → All P xs → All P ys → All P (xs ++ ys)
  All-append [] ys all all' = all'
  All-append (x ∷ xs) ys all all' = (all.0, All-append xs ys all.1 all')

  pub All-update_run :
      (r : ChunkRun) (xs : List ChunkRun) → P r → All P xs → All P (update_run r xs)
  unfolding update_run
  All-update_run r [] p all = all
  All-update_run r (x ∷ xs) p all = elim (Bool-cases (x.address == r.address)) [
    | inl e ↦ rw e (p, all.1)
    | inr e ↦ rw e (all.0, All-update_run r xs p all.1)
  ]

  pub All-remove_run : (a : ℕ) (xs : List ChunkRun) → All P xs → All P (remove_run a xs)
  unfolding remove_run
  All-remove_run a [] all = all
  All-remove_run a (x ∷ xs) all = elim (Bool-cases (x.address == a)) [
    | inl e ↦ rw e all.1
    | inr e ↦ rw e (all.0, All-remove_run a xs all.1)
  ]

  pub All-head : (xs : List ChunkRun) (r : ChunkRun) → All P xs → get_elem? xs 0 ≡ some r → P r
  All-head [] r all e = cc e
  All-head (x ∷ xs) r all e = subst P (some-injective x r e) all.0

module _ (P : ℕ → ChunkRun → Type 0) (c : ℕ) (runs : List ChunkRun)
    (lists : ℕ → List ChunkRun) where
  pub All-with_list :
      All (P c) runs
      → ((d : ℕ) → All (P d) (lists d))
      → (d : ℕ) → All (P d) (with_list c runs lists d)
  unfolding with_list
  All-with_list here others d =
      let class_runs : ℕ → Type 0 = λ k. All (P k) runs in
      elim (Bool-cases (d == c)) [
        | inl e ↦ rw e (subst class_runs (sym ((==_iff d c).0 e)) here)
        | inr e ↦ rw e (others d)
      ]
