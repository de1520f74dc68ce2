-- ===== src/Hash/Probe.antt =====
-- `hash_table32_insert` and `hash_table32_lookup` of src/utils/hash.h.
use nomalloc.Prelude.{
  ℕ, zero, suc, ◌+◌, ◌*◌, ◌^◌, ◌<◌, ◌≡◌, ◌≢◌, inl, inr, refl, ap, sym, ◌∙◌, true, false, Bool-cases,
  List, [], ◌∷◌, some, ◌==◌, leb, if◌then◌else◌, bit_and, sub64, u64, get_or, set, length, arith,
  bit_and-le_right,
}
use nomalloc.Hash.{
  HashTable32, hash32_murmur3, home, next_idx, lookup_loop, hash_table32_lookup, insert_loop,
  hash_table32_insert, overwrite, occupy, stored, full, hash_empty_slot, is_reserved,
}

get_or-set :
    (xs : List ℕ) (i j v : ℕ)
    → i < length xs
    → get_or (set xs i v) j 0 ≡ (if i == j then v else get_or xs j 0)
get_or-set [] i j v h = absurd (omega arith)
get_or-set (x ∷ xs) zero zero v h = refl
get_or-set (x ∷ xs) zero (suc j) v h = ground arith
get_or-set (x ∷ xs) (suc i) zero v h = ground arith
get_or-set (x ∷ xs) (suc i) (suc j) v h = ground (arith, get_or-set xs i j v)

-- The arrays have the capacity's length.
pub record IsHashTable (t : HashTable32) : Type 0 where
  pub some_capacity : 0 < t.capacity
  pub word_capacity : t.capacity < 2 ^ 64
  pub keys_length : length t.keys ≡ t.capacity
  pub values_length : length t.values ≡ t.capacity

mask-lt : (c a : ℕ) → 0 < c → c < 2 ^ 64 → bit_and a (sub64 c 1) < c
mask-lt c a p q = omega (arith, bit_and-le_right a (sub64 c 1))

next_idx-lt : (c i : ℕ) → 0 < c → c < 2 ^ 64 → next_idx c i < c
unfolding next_idx
next_idx-lt c i p q = mask-lt c (u64 (i + 1)) p q

home-lt : (c k : ℕ) → 0 < c → c < 2 ^ 64 → home c k < c
unfolding home
home-lt c k p q = mask-lt c (hash32_murmur3 k) p q

not_full : full ≢ stored
not_full e = ground arith

module _ (t : HashTable32) (ok : IsHashTable t) (key value : ℕ)
    (real : is_reserved key ≡ false) where
  -- The slot that is probed at an index.
  abbrev slot : ℕ → ℕ
  slot idx = get_or t.keys idx hash_empty_slot

  overwrites :
      (left idx : ℕ)
      → (slot idx == key) ≡ true
      → insert_loop (suc left) t key value idx ≡ (overwrite t idx value, stored)
  unfolding insert_loop
  overwrites left idx hit = ground (arith, hit)

  occupies :
      (left idx : ℕ)
      → (slot idx == key) ≡ false
      → is_reserved (slot idx) ≡ true
      → insert_loop (suc left) t key value idx ≡ (occupy t key value idx, stored)
  unfolding insert_loop
  occupies left idx miss vacant = ground (arith, miss, vacant)

  goes_on :
      (left idx : ℕ)
      → (slot idx == key) ≡ false
      → is_reserved (slot idx) ≡ false
      → insert_loop (suc left) t key value idx
        ≡ insert_loop left t key value (next_idx t.capacity idx)
  unfolding insert_loop
  goes_on left idx miss taken = ground (arith, miss, taken)

  -- An insertion leaves every slot that holds a key.
  insert_keeps :
      (left idx j : ℕ)
      → idx < t.capacity
      → is_reserved (slot j) ≡ false
      → get_or (insert_loop left t key value idx).0.keys j 0 ≡ slot j
  unfolding insert_loop overwrite occupy
  insert_keeps zero idx j inside taken = refl
  insert_keeps (suc left) idx j inside taken = ground (
    arith,
    ok.keys_length,
    insert_keeps left (next_idx t.capacity idx) j
        (next_idx-lt t.capacity idx ok.some_capacity ok.word_capacity) taken,
    get_or-set t.keys idx j key,
  )

  occupied : (idx : ℕ) → idx < t.capacity → get_or (occupy t key value idx).keys idx 0 ≡ key
  unfolding occupy
  occupied idx inside = ground (arith, ok.keys_length, get_or-set t.keys idx idx key)

  occupied_value :
      (idx : ℕ) → idx < t.capacity → get_or (occupy t key value idx).values idx 0 ≡ value
  unfolding occupy
  occupied_value idx inside = ground (arith, ok.values_length, get_or-set t.values idx idx value)

  overwritten : (idx : ℕ) → idx < t.capacity → get_or (overwrite t idx value).values idx 0 ≡ value
  unfolding overwrite
  overwritten idx inside = ground (arith, ok.values_length, get_or-set t.values idx idx value)

  hit_key : (idx : ℕ) → (slot idx == key) ≡ true → get_or (overwrite t idx value).keys idx 0 ≡ key
  unfolding overwrite
  hit_key idx hit = ground (arith, hit)

  found :
      (keys : List ℕ) (left idx : ℕ)
      → get_or keys idx 0 ≡ key
      → lookup_loop (suc left) t.capacity keys key idx ≡ some idx
  unfolding lookup_loop
  found keys left idx hit = ground (arith, hit)

  passed :
      (keys : List ℕ) (left idx : ℕ)
      → (get_or keys idx 0 == key) ≡ false
      → is_reserved (get_or keys idx 0) ≡ false
      → lookup_loop (suc left) t.capacity keys key idx
        ≡ lookup_loop left t.capacity keys key (next_idx t.capacity idx)
  unfolding lookup_loop
  passed keys left idx miss taken = ground (arith, miss, taken)

  -- After an insertion from `idx` on that stores, a lookup from `idx` on finds the key, and the
  -- value stands at the index found.
  insert-lookup_from :
      (left idx : ℕ)
      → idx < t.capacity
      → (insert_loop left t key value idx).1 ≡ stored
      → let t' = (insert_loop left t key value idx).0 in
        (at : ℕ) × (lookup_loop left t.capacity t'.keys key idx ≡ some at)
        × (get_or t'.values at 0 ≡ value)
  unfolding insert_loop
  insert-lookup_from zero idx inside done = absurd (not_full done)
  insert-lookup_from (suc left) idx inside done = elim (Bool-cases (slot idx == key)) [
    | inl hit ↦
        rw (overwrites left idx hit) (
          idx,
          found (overwrite t idx value).keys left idx (hit_key idx hit),
          overwritten idx inside,
        )
    | inr miss ↦ elim (Bool-cases (is_reserved (slot idx))) [
      | inl vacant ↦ rw (occupies left idx miss vacant) (
        idx,
        found (occupy t key value idx).keys left idx (occupied idx inside),
        occupied_value idx inside,
      )
      | inr taken ↦
          let next = next_idx t.capacity idx in
          let inside' = next_idx-lt t.capacity idx ok.some_capacity ok.word_capacity in
          let e = goes_on left idx miss taken in
          let (at, hit, value_at) =
            insert-lookup_from left next inside' (sym (ap (λ r. r.1) e) ∙ done) in
          let kept = insert_keeps left next idx inside' taken in
          rw e (
            at,
            passed (insert_loop left t key value next).0.keys left idx (rw kept miss)
                  (rw kept taken)
                ∙ hit,
            value_at,
          )
    ]
  ]

insert-capacity :
    (left : ℕ) (t : HashTable32) (key value idx : ℕ)
    → (insert_loop left t key value idx).0.capacity ≡ t.capacity
unfolding insert_loop overwrite occupy
insert-capacity zero t key value idx = refl
insert-capacity (suc left) t key value idx =
    ground (arith, insert-capacity left t key value (next_idx t.capacity idx))

module _ (t : HashTable32) (key value : ℕ) where
  insert_reserved : is_reserved key ≡ true → (hash_table32_insert t key value).1 ≢ stored
  unfolding hash_table32_insert
  insert_reserved res done = ground (arith, res, done)

  insert_crowded :
      leb (3 * t.capacity) (4 * u64 (t.count + t.tombstones)) ≡ true
      → (hash_table32_insert t key value).1 ≢ stored
  unfolding hash_table32_insert
  insert_crowded over done = ground (arith, over, done)

  insert_runs :
      is_reserved key ≡ false
      → leb (3 * t.capacity) (4 * u64 (t.count + t.tombstones)) ≡ false
      → hash_table32_insert t key value ≡ insert_loop t.capacity t key value (home t.capacity key)
  unfolding hash_table32_insert
  insert_runs real room = ground (arith, real, room)

lookup_runs :
    (t : HashTable32) (key : ℕ)
    → is_reserved key ≡ false
    → hash_table32_lookup t key ≡ lookup_loop t.capacity t.capacity t.keys key (home t.capacity key)
unfolding hash_table32_lookup
lookup_runs t key real = ground (arith, real)

-- Once `hash_table32_insert` has answered 0, a lookup of the key finds an index, and the value
-- stands there.
pub hash_table32_insert-lookup :
    (t : HashTable32) (key value : ℕ)
    → IsHashTable t
    → (hash_table32_insert t key value).1 ≡ stored
    → let t' = (hash_table32_insert t key value).0 in
      (at : ℕ) × (hash_table32_lookup t' key ≡ some at) × (get_or t'.values at 0 ≡ value)
hash_table32_insert-lookup t key value ok done = elim (Bool-cases (is_reserved key)) [
  | inl res ↦ absurd (insert_reserved t key value res done)
  | inr real ↦ elim (Bool-cases (leb (3 * t.capacity) (4 * u64 (t.count + t.tombstones)))) [
    | inl over ↦ absurd (insert_crowded t key value over done)
    | inr room ↦
        let e = insert_runs t key value real room in
        let start = home-lt t.capacity key ok.some_capacity ok.word_capacity in
        let c = insert-capacity t.capacity t key value (home t.capacity key) in
        rw (e, lookup_runs (insert_loop t.capacity t key value (home t.capacity key)).0 key real, c)
          (insert-lookup_from t ok key value real t.capacity (home t.capacity key) start
            (sym (ap (λ r. r.1) e) ∙ done))
  ]
]
