-- ===== src/Arena/Manager.antt =====
-- `arena_create` of src/memory/arena.c and the table of arenas.
use native.Mathlib.Decide.{ℕ_discrete, dec_lt}
use nomalloc.Prelude.{
  ℕ, zero, suc, ◌+◌, ◌≤◌, ◌<◌, ◌≡◌, ◌≢◌, ◌⊎◌, inl, inr, refl, ap, sym, ◌∙◌, arith, if◌then◌else◌,
  subst, ◌==◌, List, [], ◌∷◌, Option, some, none, get_or, set, length, length-set,
}
use nomalloc.Memory.{Memory}
use nomalloc.Libc.{Libc, Answer}
use nomalloc.Arena.{Arena, ArenaManager, new_arena, arena_create}

-- The table has 64 places, an arena stands at the place of its identity, and past `num_arenas`
-- there is none.
pub record IsTable (g : ArenaManager) : Type 0 where
  pub places : length g.arenas ≡ 64
  pub bounded : g.num_arenas ≤ 64
  pub in_place :
      (i : ℕ) (a : Arena) → get_or g.arenas i none ≡ some a → (a.id ≡ i) × (i < g.num_arenas)

get_or-set :
    {A : Type 0} (xs : List (Option A)) (i j : ℕ) (v : Option A)
    → i < length xs
    → get_or (set xs i v) j none ≡ (if i == j then v else get_or xs j none)
get_or-set [] i j v h = absurd (omega arith)
get_or-set (x ∷ xs) zero zero v h = refl
get_or-set (x ∷ xs) zero (suc j) v h = ground arith
get_or-set (x ∷ xs) (suc i) zero v h = ground arith
get_or-set (x ∷ xs) (suc i) (suc j) v h = ground (arith, get_or-set xs i j v)

id_of : Option Arena → ℕ
id_of none = 0
id_of (some a) = a.id

same_id : (x y : Arena) → some x ≡ some y → y.id ≡ x.id
unfolding id_of
same_id x y e = ap id_of (sym e)

put-IsTable :
    (g : ArenaManager) (arena : Arena)
    → IsTable g
    → g.num_arenas < 64
    → arena.id ≡ g.num_arenas
    → IsTable (record g {
      arenas = set g.arenas g.num_arenas (some arena);
      num_arenas = g.num_arenas + 1;
    })
put-IsTable g arena ok room named = record {
  places = length-set g.arenas g.num_arenas (some arena) ∙ ok.places;
  bounded = omega arith;
  in_place = λ i a e.
      let found =
        sym (get_or-set g.arenas g.num_arenas i (some arena) (omega (arith, ok.places))) ∙ e in
      elim (ℕ_discrete g.num_arenas i) as (λ _. (a.id ≡ i) × (i < g.num_arenas + 1)) [
        | yes same ↦
            let named' : a.id ≡ g.num_arenas = same_id arena a (ground arith) ∙ named in
            (named' ∙ same, omega arith)
        | no other ↦ let old = ok.in_place i a (ground arith) in (old.0, omega (arith, old.1))
      ];
}

new_arena_id : (address id node : ℕ) → (new_arena address id node).id ≡ id
unfolding new_arena
new_arena_id address id node = refl

module _ (L : Libc) (bytes node : ℕ) (h : L.Heap) (m : Memory) where
  abbrev got : Answer L.Heap
  got = L.malloc bytes h m

  create_full :
      (g : ArenaManager)
      → 64 ≤ g.num_arenas
      → arena_create L bytes node g h m ≡ record { arena = none; manager = g; heap = h; memory = m }
  unfolding arena_create
  create_full g full = ground arith

  create_refused :
      (g : ArenaManager)
      → g.num_arenas < 64
      → got.ptr ≡ 0
      → arena_create L bytes node g h m
        ≡ record { arena = none; manager = g; heap = got.heap; memory = got.memory }
  unfolding arena_create
  create_refused g room null = ground arith

  create_placed :
      (g : ArenaManager)
      → g.num_arenas < 64
      → got.ptr ≢ 0
      → let arena = new_arena got.ptr g.num_arenas node in
        arena_create L bytes node g h m ≡ record {
          arena = some arena;
          manager = record g {
            arenas = set g.arenas g.num_arenas (some arena);
            num_arenas = g.num_arenas + 1;
          };
          heap = got.heap;
          memory = got.memory;
        }
  unfolding arena_create
  create_placed g room there = ground arith

  create_cases :
      (g : ArenaManager)
      → ((64 ≤ g.num_arenas) ⊎ (got.ptr ≡ 0)) ⊎ ((g.num_arenas < 64) × (got.ptr ≢ 0))
  create_cases g = elim (ℕ_discrete got.ptr 0) [
    | yes null ↦ inl (inr null)
    | no there ↦ elim (dec_lt g.num_arenas 64) [
      | yes room ↦ inr (room, there)
      | no full ↦ inl (inl (omega arith))
    ]
  ]

  create_none :
      (g : ArenaManager)
      → (64 ≤ g.num_arenas) ⊎ (got.ptr ≡ 0)
      → ((arena_create L bytes node g h m).arena ≡ none)
        × ((arena_create L bytes node g h m).manager ≡ g)
  create_none g why = elim (dec_lt g.num_arenas 64) [
    | no full ↦ let e = create_full g (omega arith) in (ap (λ o. o.arena) e, ap (λ o. o.manager) e)
    | yes room ↦ elim why [
      | inl full ↦ absurd (omega arith)
      | inr null ↦
          let e = create_refused g room null in (ap (λ o. o.arena) e, ap (λ o. o.manager) e)
    ]
  ]

  -- `arena_create` keeps the table in order. With the table full or no memory in the C library it
  -- returns NULL and leaves the table alone; otherwise it puts a new arena with the next identity
  -- into the table and leaves every other place.
  pub arena_create-IsTable :
      (g : ArenaManager)
      → IsTable g
      → let o = arena_create L bytes node g h m in
        let arena = new_arena (L.malloc bytes h m).ptr g.num_arenas node in
        IsTable o.manager
        × ((((64 ≤ g.num_arenas) ⊎ ((L.malloc bytes h m).ptr ≡ 0))
              × (o.arena ≡ none)
              × (o.manager ≡ g))
            ⊎ ((g.num_arenas < 64)
                × ((L.malloc bytes h m).ptr ≢ 0)
                × (o.arena ≡ some arena)
                × (o.manager.num_arenas ≡ g.num_arenas + 1)
                × ((j : ℕ)
                    → get_or o.manager.arenas j none
                      ≡ (if g.num_arenas == j then some arena else get_or g.arenas j none))))
  arena_create-IsTable g ok = elim (create_cases g) [
    | inl why ↦ let (a, b) = create_none g why in (subst IsTable (sym b) ok, inl (why, a, b))
    | inr (room, there) ↦
        let arena = new_arena got.ptr g.num_arenas node in
        let e = create_placed g room there in
        (
          subst IsTable (sym (ap (λ o. o.manager) e))
              (put-IsTable g arena ok room (new_arena_id got.ptr g.num_arenas node)),
          inr (
            room,
            there,
            ap (λ o. o.arena) e,
            ap (λ o. o.manager.num_arenas) e,
            λ j.
                ap (λ o. get_or o.manager.arenas j none) e
                ∙ get_or-set g.arenas g.num_arenas j (some arena) (omega (arith, ok.places, room)),
          ),
        )
  ]
