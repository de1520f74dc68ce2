-- ===== src/Leak/Ledger.antt =====
-- The lists of the leak detector of src/debug/leak_detector.c and its counters stay in order.
use nomalloc.Prelude.{
  ℕ, ◌+◌, ◌≤◌, ◌<◌, ◌≡◌, ◌≢◌, ap, refl, inl, inr, true, not, ◌&&◌, List, [], ◌∷◌, ◌++◌, some, ltb,
  ◌==◌, if◌then◌else◌, length, length-append, arith, Bool-cases, ==_iff,
}
use nomalloc.Leak.{AllocationRecord, LeakDetector, leak_hash_index, unlink}
use nomalloc.Leak.Ops.{Caller, take_record, new_record, enter_record, leak_detector_record_alloc}

unfoldable pub count : ℕ → List ℕ → ℕ
count a [] = 0
count a (x ∷ xs) = (if x == a then 1 else 0) + count a xs

pub count-append : (a : ℕ) (xs ys : List ℕ) → count a (xs ++ ys) ≡ count a xs + count a ys
unfolding count
count-append a [] ys = omega arith
count-append a (x ∷ xs) ys = ground (arith, count-append a xs ys)

pub count-unlink :
    (a id : ℕ) (xs : List ℕ) → count a (unlink id xs) ≡ (if a == id then 0 else count a xs)
unfolding count unlink
count-unlink a id [] = ground arith
count-unlink a id (x ∷ xs) = ground (arith, count-unlink a id xs)

pub length-unlink : (id : ℕ) (xs : List ℕ) → length (unlink id xs) + count id xs ≡ length xs
unfolding count unlink
length-unlink id [] = refl
length-unlink id (x ∷ xs) = ground (arith, length-unlink id xs)

pub unlink_absent : (id : ℕ) (xs : List ℕ) → count id xs ≡ 0 → unlink id xs ≡ xs
unfolding count unlink
unlink_absent id [] absent = refl
unlink_absent id (x ∷ xs) absent = ground (arith, unlink_absent id xs)

pub unlink-append : (id : ℕ) (xs ys : List ℕ) → unlink id (xs ++ ys) ≡ unlink id xs ++ unlink id ys
unfolding unlink
unlink-append id [] ys = refl
unlink-append id (x ∷ xs) ys = ground (arith, unlink-append id xs ys)

-- A record is in one of the two lists at most, the buckets have only records in use, each of which
-- is in the bucket of its pointer, and the counter counts them.
pub record IsLedger (s : LeakDetector) : Type 0 where
  pub linked : s.linked ≡ true
  pub once : (id : ℕ) → count id s.allocation_list + count id s.free_list ≤ 1
  pub hashed : (i id : ℕ) → count id (s.hash_table i) ≤ count id s.allocation_list
  pub live :
      (id : ℕ)
      → 0 < count id s.allocation_list
      → (r : AllocationRecord) × (s.record_at id ≡ some r)
        × (r.ptr ≢ 0)
        × (0 < count id (s.hash_table (leak_hash_index r.ptr)))
  pub counted : length s.allocation_list ≡ s.num_records
  pub room : s.num_records + length s.free_list ≤ s.max_records
  pub word : s.max_records < 18446744073709551616

pub count_one : (a id : ℕ) → count a (id ∷ []) ≡ (if id == a then 1 else 0)
unfolding count
count_one a id = omega arith

pub count_cons : (a x : ℕ) (xs : List ℕ) → count a (x ∷ xs) ≡ (if x == a then 1 else 0) + count a xs
unfolding count
count_cons a x xs = refl

-- A record in use, found in the bucket of its pointer.
abbrev IsLive : LeakDetector → ℕ → Type 0
IsLive s id =
    (r : AllocationRecord) × (s.record_at id ≡ some r)
    × (r.ptr ≢ 0)
    × (0 < count id (s.hash_table (leak_hash_index r.ptr)))

-- What `take_record` hands out is in neither list, and there is room for it.
pub record IsTaken (t : LeakDetector × ℕ) : Type 0 where
  pub ledger : IsLedger (t.0)
  pub fresh : t.1 ≢ 0 → count (t.1) (t.0).allocation_list + count (t.1) (t.0).free_list ≡ 0
  pub space : t.1 ≢ 0 → (t.0).num_records + length (t.0).free_list < (t.0).max_records

pub take_record-IsTaken :
    (granted : ℕ) (ids : List ℕ) (s : LeakDetector)
    → IsLedger s
    → s.free_list ≡ ids
    → count granted s.allocation_list + count granted s.free_list ≡ 0
    → IsTaken (take_record granted ids s)
unfolding take_record
take_record-IsTaken granted [] s l e new = elim (Bool-cases (ltb s.num_records s.max_records)) [
  | inl few ↦
      rw (take_record, few)
        (record { ledger = l; fresh = λ n. new; space = λ n. ground (arith, ap length e) })
  | inr full ↦
      rw (take_record, full)
        (record { ledger = l; fresh = λ n. absurd (n refl); space = λ n. absurd (n refl) })
]
take_record-IsTaken granted (id ∷ rest) s l e new = record {
  ledger = record {
    linked = l.linked;
    once = λ a. ground (arith, l.once a, count_cons a id rest);
    hashed = l.hashed;
    live = l.live;
    counted = l.counted;
    room = omega (arith, l.room, ap length e);
    word = l.word;
  };
  fresh = λ n. ground (arith, l.once id, count_cons id id rest);
  space = λ n. omega (arith, l.room, ap length e);
}

pub take_record_keeps :
    (granted : ℕ) (ids : List ℕ) (s : LeakDetector)
    → (rest : List ℕ) × ((take_record granted ids s).0 ≡ record s { free_list = rest })
unfolding take_record
take_record_keeps granted [] s = elim (Bool-cases (ltb s.num_records s.max_records)) [
  | inl few ↦ (s.free_list, rw (take_record, few) refl)
  | inr full ↦ (s.free_list, rw (take_record, full) refl)
]
take_record_keeps granted (id ∷ rest) s = (rest, refl)

module _ (s : LeakDetector) (l : IsLedger s) (id : ℕ) (r : AllocationRecord) where
  enter_record-IsLive :
      (a : ℕ)
      → r.ptr ≢ 0
      → 0 < count a (s.allocation_list ++ (id ∷ []))
      → IsLive (enter_record id r s) a
  unfolding enter_record
  enter_record-IsLive a tracked inside = elim (Bool-cases (a == id)) [
    | inl same ↦ (
      r,
      ground arith,
      tracked,
      ground (arith, count_cons a id (s.hash_table (leak_hash_index r.ptr))),
    )
    | inr other ↦
        let old =
          l.live a (ground (arith, count-append a s.allocation_list (id ∷ []), count_one a id)) in
        (
          old.0,
          ground (arith, old.1),
          old.2,
          ground (arith, old.3, count_cons a id (s.hash_table (leak_hash_index (old.0.ptr)))),
        )
  ]

  pub enter_record-IsLedger :
      count id s.allocation_list + count id s.free_list ≡ 0
      → s.num_records + length s.free_list < s.max_records
      → r.ptr ≢ 0
      → IsLedger (enter_record id r s)
  unfolding enter_record
  enter_record-IsLedger fresh space tracked = record {
    linked = l.linked;
    once = λ a.
        ground (
          arith,
          l.once a,
          count-append a s.allocation_list (id ∷ []),
          count_one a id,
          ==_iff id a,
        );
    hashed = λ i a. ground (
      arith,
      l.hashed i a,
      count-append a s.allocation_list (id ∷ []),
      count_one a id,
      count_cons a id (s.hash_table i),
    );
    live = λ a inside. enter_record-IsLive a tracked inside;
    counted = ground (arith, l.counted, length-append s.allocation_list (id ∷ []), l.word);
    room = ground (arith, l.word);
    word = l.word;
  }

-- `leak_detector_record_alloc` never faults on lists that are in order, and keeps them in order, if
-- the address that the C library grants for a record is not that of a record in one of the lists.
pub record_alloc-IsLedger :
    (c : Caller) (granted ptr size class_idx arena_id : ℕ) (s : LeakDetector)
    → IsLedger s
    → count granted s.allocation_list + count granted s.free_list ≡ 0
    → (s' : LeakDetector) × (leak_detector_record_alloc c granted ptr size class_idx arena_id s
        ≡ some s')
      × IsLedger s'
unfolding leak_detector_record_alloc
record_alloc-IsLedger c granted ptr size class_idx arena_id s l new =
    let t = take_record-IsTaken granted s.free_list s l refl new in
    let taken = take_record granted s.free_list s in
    elim (Bool-cases (s.enabled && s.tracking && not (ptr == 0))) [
      | inl on ↦ elim (Bool-cases (taken.1 == 0)) [
        | inl lacking ↦ (s, simp (leak_detector_record_alloc, on, lacking, l.linked), l)
        | inr there ↦ (
          enter_record (taken.1) (new_record c ptr size class_idx arena_id) (taken.0),
          simp (leak_detector_record_alloc, on, there, l.linked),
          enter_record-IsLedger (taken.0) t.ledger (taken.1)
              (new_record c ptr size class_idx arena_id) (t.fresh (ground arith))
              (t.space (ground arith)) (ground arith),
        )
      ]
      | inr off ↦ (s, rw (leak_detector_record_alloc, off) refl, l)
    ]
