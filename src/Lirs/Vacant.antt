-- ===== src/Lirs/Vacant.antt =====
-- The caches that a program can reach with the calls of src/cache/lirs/lirs.c.
use native.Mathlib.Decide.{ℕ_discrete}
use nomalloc.Prelude.{
  ℕ, zero, suc, ◌≡◌, ◌≢◌, inl, inr, refl, ap, subst, true, false, Bool, List, [], Option, none,
  some, ltb, ◌==◌, arith, Bool-cases, Option-cases, sub64,
}
use nomalloc.Lirs.{
  LirsCache, hash_size_loop, hir_capacity_of, lirs_create, evict_loop, lirs_evict_hir,
}
use nomalloc.Lirs.Ops.{LirsResult, lirs_get, lirs_put, lirs_remove, lirs_contains}
use nomalloc.Lirs.Clear.{
  clear_stack, clear_queue, clear_lists, cleared_stats, lirs_clear, lirs_destroy,
  lirs_set_evict_callback,
}
use nomalloc.Lirs.Insert.{resize_loop, lirs_resize}
use nomalloc.Lirs.Limits.{find_blank}

-- A call that returns, of every function that changes a cache.
pub data Step : LirsCache → LirsCache → Type 0 where
  get : (key value : ℕ) (c d : LirsCache) → lirs_get key c ≡ some (d, value) → Step c d
  put :
      (key value size : ℕ) (result : LirsResult) (c d : LirsCache)
      → lirs_put key value size c ≡ some (d, result)
      → Step c d
  remove :
      (key : ℕ) (result : LirsResult) (c d : LirsCache)
      → lirs_remove key c ≡ some (d, result)
      → Step c d
  resize :
      (fuel new_capacity : ℕ) (c d : LirsCache)
      → lirs_resize fuel new_capacity c ≡ some d
      → Step c d
  clear : (c d : LirsCache) → lirs_clear c ≡ some d → Step c d
  set_evict_callback : (given : Bool) (c : LirsCache) → Step c (lirs_set_evict_callback given c)

pub data Reach (c : LirsCache) : LirsCache → Type 0 where
  here : Reach c c
  next : {d e : LirsCache} → Reach c d → Step d e → Reach c e

-- No block is linked anywhere, none is counted, and the callback has never been called.
pub record IsVacant (c : LirsCache) : Type 0 where
  pub stack : c.s_stack ≡ []
  pub queue : c.q_queue ≡ []
  pub table : (i : ℕ) → c.hash_table i ≡ []
  pub uncounted : c.stats.lir_count ≡ 0
  pub uncalled : c.evicted ≡ []

abbrev Vacant : Option (Option LirsCache) → Type 0
Vacant none = Unit {0}
Vacant (some none) = Unit {0}
Vacant (some (some c)) = IsVacant c

create-Vacant :
    (structure table capacity max_size : ℕ) → Vacant (lirs_create structure table capacity max_size)
unfolding lirs_create
create-Vacant structure table capacity max_size = elim (Bool-cases (structure == 0)) [
  | inl e ↦ rw (lirs_create, e) tt
  | inr e ↦ elim (Option-cases (hash_size_loop 65 capacity 1)) [
    | inl n ↦ rw (lirs_create, e, n) tt
    | inr (size, n) ↦ elim (Bool-cases (table == 0)) [
      | inl t ↦ rw (lirs_create, e, n, t) tt
      | inr t ↦
          rw (lirs_create, e, n, t)
            (record {
              stack = refl;
              queue = refl;
              table = λ i. refl;
              uncounted = refl;
              uncalled = refl;
            })
    ]
  ]
]

evict_vacant :
    (c : LirsCache) → c.q_queue ≡ [] → lirs_evict_hir c ≡ some (record c { q_queue = [] })
unfolding lirs_evict_hir evict_loop
evict_vacant c e = ap (λ (ids : List ℕ). evict_loop ids c) e

module _ (c : LirsCache) (v : IsVacant c) where
  abbrev resized : ℕ → LirsCache
  resized new_capacity = record c {
    capacity = new_capacity;
    hir_capacity = hir_capacity_of new_capacity;
  }

  vacant_resize :
      (fuel new_capacity : ℕ)
      → lirs_resize (suc fuel) new_capacity c
        ≡ some (record (resized new_capacity) { q_queue = [] })
  unfolding lirs_resize resize_loop
  vacant_resize fuel new_capacity =
      let test : ltb (sub64 new_capacity (hir_capacity_of new_capacity)) c.stats.lir_count ≡ false =
        ground (arith, v.uncounted) in
      rw (lirs_resize, resize_loop, test) (evict_vacant (resized new_capacity) v.queue)

  vacant_lists : clear_lists c ≡ some c
  unfolding clear_lists clear_stack clear_queue
  vacant_lists =
      let stack : clear_stack c.s_stack c ≡ some c =
        ap (λ (ids : List ℕ). clear_stack ids c) v.stack in
      let queue : clear_queue c.q_queue c ≡ some c =
        ap (λ (ids : List ℕ). clear_queue ids c) v.queue in
      rw (clear_lists, stack, queue) refl

  vacant_clear : (e : LirsCache) × (lirs_clear c ≡ some e)
  unfolding lirs_clear
  vacant_clear = (
    record c {
      hash_table = λ i. [];
      s_stack = [];
      q_queue = [];
      s_stack_size = 0;
      q_queue_size = 0;
      stats = cleared_stats c.stats;
    },
    rw (lirs_clear, vacant_lists) refl,
  )

  vacant_keys :
      (key value size : ℕ)
      → key ≢ 0
      → (lirs_get key c ≡ none)
        × (lirs_put key value size c ≡ none)
        × (lirs_contains c key ≡ none)
        × (lirs_remove key c ≡ none)
  unfolding lirs_get lirs_put lirs_contains lirs_remove
  vacant_keys key value size not_null =
      let lost = find_blank c key v.table in
      let test : (key == 0) ≡ false = ground arith in
      (
        rw (lirs_get, test, lost) refl,
        rw (lirs_put, test, lost) refl,
        rw (lirs_contains, test, lost) refl,
        rw (lirs_remove, test, lost) refl,
      )

  -- A call with the key 0 changes nothing, and one with another key does not return.
  abbrev Kept : {A : Type 0} → Option (LirsCache × A) → Type 0
  Kept none = Unit {0}
  Kept (some (d, result)) = IsVacant d

  get-Kept : (key : ℕ) → Kept (lirs_get key c)
  unfolding lirs_get
  get-Kept key = elim (ℕ_discrete key 0) [
    | yes z ↦ let test : (key == 0) ≡ true = ground arith in rw (lirs_get, test) v
    | no other ↦ rw ((vacant_keys key 0 0 other).0) tt
  ]

  put-Kept : (key value size : ℕ) → Kept (lirs_put key value size c)
  unfolding lirs_put
  put-Kept key value size = elim (ℕ_discrete key 0) [
    | yes z ↦ let test : (key == 0) ≡ true = ground arith in rw (lirs_put, test) v
    | no other ↦ rw ((vacant_keys key value size other).1) tt
  ]

  remove-Kept : (key : ℕ) → Kept (lirs_remove key c)
  unfolding lirs_remove
  remove-Kept key = elim (ℕ_discrete key 0) [
    | yes z ↦ let test : (key == 0) ≡ true = ground arith in rw (lirs_remove, test) v
    | no other ↦ rw ((vacant_keys key 0 0 other).3) tt
  ]

  abbrev Left : Option LirsCache → Type 0
  Left none = Unit {0}
  Left (some d) = IsVacant d

  resize-Left : (fuel new_capacity : ℕ) → Left (lirs_resize fuel new_capacity c)
  unfolding lirs_resize resize_loop
  resize-Left zero new_capacity = tt
  resize-Left (suc fuel) new_capacity = rw (vacant_resize fuel new_capacity) (record {
    stack = v.stack;
    queue = refl;
    table = v.table;
    uncounted = v.uncounted;
    uncalled = v.uncalled;
  })

  clear-Left : Left (lirs_clear c)
  unfolding lirs_clear
  clear-Left =
      rw (lirs_clear, vacant_lists)
        (record {
          stack = refl;
          queue = refl;
          table = λ i. refl;
          uncounted = refl;
          uncalled = v.uncalled;
        })

Step-IsVacant : {c d : LirsCache} → Step c d → IsVacant c → IsVacant d
unfolding lirs_set_evict_callback
Step-IsVacant (get key value c d made) v = subst (Kept c v) made (get-Kept c v key)
Step-IsVacant (put key value size result c d made) v =
    subst (Kept c v) made (put-Kept c v key value size)
Step-IsVacant (remove key result c d made) v = subst (Kept c v) made (remove-Kept c v key)
Step-IsVacant (resize fuel n c d made) v = subst (Left c v) made (resize-Left c v fuel n)
Step-IsVacant (clear c d made) v = subst (Left c v) made (clear-Left c v)
Step-IsVacant (set_evict_callback given c) v = record {
  stack = v.stack;
  queue = v.queue;
  table = v.table;
  uncounted = v.uncounted;
  uncalled = v.uncalled;
}

Reach-IsVacant : {c d : LirsCache} → Reach c d → IsVacant c → IsVacant d
Reach-IsVacant here v = v
Reach-IsVacant (next r st) v = Step-IsVacant st (Reach-IsVacant r v)

-- Whatever calls that return are made of a new cache, no block is ever linked in it and its
-- callback is never called: each call with a key other than NULL faults, still. `lirs_resize`
-- returns after one test of its loop's condition, for every capacity, and `lirs_clear` and
-- `lirs_destroy` return.
pub lirs_create-IsVacant :
    (structure table capacity max_size : ℕ) (c d : LirsCache)
    → lirs_create structure table capacity max_size ≡ some (some c)
    → Reach c d
    → IsVacant d
      × ((key value size : ℕ)
          → key ≢ 0
          → (lirs_get key d ≡ none)
            × (lirs_put key value size d ≡ none)
            × (lirs_contains d key ≡ none)
            × (lirs_remove key d ≡ none))
      × ((new_capacity : ℕ) → (e : LirsCache) × (lirs_resize 1 new_capacity d ≡ some e))
      × ((e : LirsCache) × (lirs_clear d ≡ some e))
      × (lirs_destroy d ≡ some [])
unfolding lirs_clear lirs_destroy
lirs_create-IsVacant structure table capacity max_size c d made r =
    let v =
      Reach-IsVacant r (subst Vacant made (create-Vacant structure table capacity max_size)) in
    (
      v,
      vacant_keys d v,
      λ n. (record (resized d v n) { q_queue = [] }, vacant_resize d v 0 n),
      vacant_clear d v,
      rw (lirs_destroy, vacant_lists d v) (ap some v.uncalled),
    )
