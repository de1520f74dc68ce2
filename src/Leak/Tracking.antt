-- ===== src/Leak/Tracking.antt =====
-- What `leak_detector_record_dealloc` of src/debug/leak_detector.c finds and takes out.
use nomalloc.Prelude.{
  ℕ, ◌+◌, ◌<◌, ◌≡◌, ◌≢◌, ap, refl, ◌∙◌, ◌⊎◌, inl, inr, true, false, not, ◌&&◌, List, [], ◌∷◌, ◌++◌,
  Option, none, some, ◌==◌, u64, length-append, arith, Bool-cases, Option-cases,
}
use nomalloc.Leak.{AllocationRecord, LeakDetector, leak_hash_index, unlink}
use nomalloc.Leak.Ops.{
  Caller, take_record, new_record, enter_record, leak_detector_record_alloc, find_record,
  remove_record, leak_detector_record_dealloc,
}
use nomalloc.Leak.Ledger.{
  count, count-append, count-unlink, length-unlink, unlink_absent, count_one, IsLedger,
  take_record-IsTaken, take_record_keeps,
}

module _ (ptr : ℕ) (at : ℕ → Option AllocationRecord) where
  find_record_sound :
      (ids : List ℕ) (id : ℕ)
      → find_record ids ptr at ≡ some id
      → (0 < count id ids) × ((r : AllocationRecord) × (at id ≡ some r) × (r.ptr ≡ ptr))
  unfolding find_record count
  find_record_sound [] id found = ground arith
  find_record_sound (x ∷ xs) id found = elim (Option-cases (at x)) [
    | inl lost ↦ ground arith
    | inr (r, e) ↦ elim (Bool-cases (r.ptr == ptr)) [
      | inl same ↦
          let here : x ≡ id = ground arith in (ground arith, (r, rw (← here) e, ground arith))
      | inr other ↦
          let below : find_record xs ptr at ≡ some id = ground arith in
          let rest = find_record_sound xs id below in (ground arith, rest.1)
    ]
  ]

  find_record-none :
      (ids : List ℕ)
      → find_record ids ptr at ≡ none
      → ((a : ℕ) → 0 < count a ids → (r : AllocationRecord) × (at a ≡ some r))
      → (a : ℕ) (r : AllocationRecord) → at a ≡ some r
      → r.ptr ≡ ptr
      → count a ids ≡ 0
  unfolding find_record count
  find_record-none [] lost all a r e same = refl
  find_record-none (x ∷ xs) lost all a r e same =
      let (q, here) = all x (ground arith) in
      elim (Bool-cases (q.ptr == ptr)) [
        | inl found ↦ absurd (ground arith)
        | inr other ↦
            let below : find_record xs ptr at ≡ none = ground arith in
            let rest = find_record-none xs below (λ b inside. all b (ground arith)) a r e same in
            elim (Bool-cases (x == a)) [
              | inl met ↦ let one : x ≡ a = ground arith in absurd (ground (arith, ap at one))
              | inr apart ↦ ground arith
            ]
      ]

-- The record is in use.
abbrev pub Tracks : LeakDetector → ℕ → ℕ → Type 0
Tracks s ptr id =
    (0 < count id s.allocation_list)
    × ((r : AllocationRecord) × (s.record_at id ≡ some r) × (r.ptr ≡ ptr))

remove_record-IsLedger :
    (s : LeakDetector) (id : ℕ)
    → IsLedger s
    → 0 < count id s.allocation_list
    → IsLedger (remove_record id s)
unfolding remove_record
remove_record-IsLedger s id l inside = record {
  linked = l.linked;
  once = λ a. ground (
    arith,
    l.once a,
    l.once id,
    count-unlink a id s.allocation_list,
    count-append a s.free_list (id ∷ []),
    count_one a id,
  );
  hashed = λ i a. ground (
    arith,
    l.hashed i a,
    count-unlink a id s.allocation_list,
    count-unlink a id (s.hash_table i),
  );
  live = λ a still.
      (let old = l.live a (ground (arith, count-unlink a id s.allocation_list)) in
        (
          old.0,
          ground (arith, old.1, count-unlink a id s.allocation_list),
          old.2,
          ground (
            arith,
            old.3,
            count-unlink a id s.allocation_list,
            count-unlink a id (s.hash_table (leak_hash_index (old.0.ptr))),
          ),
        ));
  counted =
      ground (arith, l.once id, l.counted, length-unlink id s.allocation_list, l.room, l.word);
  room = ground (
    arith,
    l.once id,
    l.counted,
    length-unlink id s.allocation_list,
    l.room,
    l.word,
    length-append s.free_list (id ∷ []),
  );
  word = l.word;
}

num_records-remove_record :
    (s : LeakDetector) (id : ℕ)
    → IsLedger s
    → 0 < count id s.allocation_list
    → (remove_record id s).num_records + 1 ≡ s.num_records
unfolding remove_record
num_records-remove_record s id l inside =
    omega (arith, l.counted, length-unlink id s.allocation_list, l.room, l.word)

-- A live record is found in its bucket.
bucket_live :
    (s : LeakDetector) (i : ℕ)
    → IsLedger s
    → (a : ℕ) → 0 < count a (s.hash_table i)
    → (r : AllocationRecord) × (s.record_at a ≡ some r)
bucket_live s i l a inside = let (r, e, _, _) = l.live a (ground (arith, l.hashed i a)) in (r, e)

-- On a tracking detector whose lists are in order `leak_detector_record_dealloc` of a pointer has
-- two outcomes. If a record in use has the pointer, one such record leaves the list of allocations,
-- the counter goes down by 1, and the lists stay in order. If none has it, the call faults.
pub record_dealloc_outcome :
    (s : LeakDetector) (ptr : ℕ)
    → IsLedger s
    → s.enabled ≡ true
    → s.tracking ≡ true
    → ptr ≢ 0
    → ((id : ℕ) × (s' : LeakDetector) × Tracks s ptr id
        × (leak_detector_record_dealloc ptr s ≡ some s')
        × IsLedger s'
        × (s'.allocation_list ≡ unlink id s.allocation_list)
        × (s'.num_records + 1 ≡ s.num_records))
      ⊎ ((leak_detector_record_dealloc ptr s ≡ none) × ((id : ℕ) → ¬ Tracks s ptr id))
unfolding leak_detector_record_dealloc
record_dealloc_outcome s ptr l on active not_null =
    let test : (s.enabled && s.tracking && not (ptr == 0)) ≡ true = ground arith in
    let bucket = s.hash_table (leak_hash_index ptr) in
    elim (Option-cases (find_record bucket ptr s.record_at)) [
      | inl lost ↦ inr (
        rw (leak_detector_record_dealloc, test, lost) refl,
        λ id t.
            (let (q, e, _, inside) = l.live id (t.0) in
              let same : q.ptr ≡ ptr = ground arith in
              let out =
                find_record-none ptr s.record_at bucket lost (bucket_live s _ l) id q e same in
              absurd (ground (arith, ap (λ p. count id (s.hash_table (leak_hash_index p))) same))),
      )
      | inr (id, found) ↦
          let (inside, (r, e, same)) = find_record_sound ptr s.record_at bucket id found in
          let used : 0 < count id s.allocation_list =
            ground (arith, l.hashed (leak_hash_index ptr) id) in
          let kept = remove_record-IsLedger s id l used in
          inl (
            id,
            remove_record id s,
            (used, (r, e, same)),
            rw (leak_detector_record_dealloc, test, found) refl,
            kept,
            refl,
            num_records-remove_record s id l used,
          )
    ]

-- The new record is the first of its bucket.
find_entered :
    (id : ℕ) (r : AllocationRecord) (s : LeakDetector)
    → find_record
        ((enter_record id r s).hash_table (leak_hash_index r.ptr))
        r.ptr
        (enter_record id r s).record_at
      ≡ some id
unfolding find_record enter_record
find_entered id r s = ground arith

unlink_added : (id : ℕ) (xs : List ℕ) → count id xs ≡ 0 → unlink id (xs ++ (id ∷ [])) ≡ xs
unfolding unlink count
unlink_added id [] absent = ground arith
unlink_added id (x ∷ xs) absent = ground (arith, unlink_added id xs)

module _ (s : LeakDetector) (l : IsLedger s) (id : ℕ) (r : AllocationRecord) where
  remove_record-enter_record :
      count id s.allocation_list ≡ 0
      → s.num_records < s.max_records
      → ((remove_record id (enter_record id r s)).allocation_list ≡ s.allocation_list)
        × ((i : ℕ) → (remove_record id (enter_record id r s)).hash_table i ≡ s.hash_table i)
        × ((remove_record id (enter_record id r s)).num_records ≡ s.num_records)
  unfolding remove_record enter_record unlink
  remove_record-enter_record absent few = (
    unlink_added id s.allocation_list absent,
    λ i. ground (arith, unlink_absent id (s.hash_table i), l.hashed i id),
    omega (arith, l.word),
  )

  dealloc-enter_record :
      s.enabled ≡ true
      → s.tracking ≡ true
      → r.ptr ≢ 0
      → leak_detector_record_dealloc r.ptr (enter_record id r s)
        ≡ some (remove_record id (enter_record id r s))
  unfolding leak_detector_record_dealloc
  dealloc-enter_record on active not_null =
      let test : (s.enabled && s.tracking && not (r.ptr == 0)) ≡ true = ground arith in
      let entered = enter_record id r s in
      let same : (entered.enabled && entered.tracking && not (r.ptr == 0)) ≡ true =
        unfold enter_record in test in
      rw (leak_detector_record_dealloc, same, find_entered id r s) refl

-- On a tracking detector whose lists are in order, where there is a record for it,
-- `leak_detector_record_alloc` of a pointer is undone by `leak_detector_record_dealloc`, also if the
-- pointer has a record already: neither call faults, the list of allocations, the buckets and the
-- number of records are what they were, and either total is 1 more.
pub record_dealloc-record_alloc :
    (c : Caller) (granted ptr size class_idx arena_id : ℕ) (s : LeakDetector)
    → IsLedger s
    → s.enabled ≡ true
    → s.tracking ≡ true
    → ptr ≢ 0
    → count granted s.allocation_list + count granted s.free_list ≡ 0
    → (take_record granted s.free_list s).1 ≢ 0
    → (s1 : LeakDetector) × (s2 : LeakDetector) × (leak_detector_record_alloc c granted ptr size
          class_idx arena_id s
        ≡ some s1)
      × (leak_detector_record_dealloc ptr s1 ≡ some s2)
      × (s2.allocation_list ≡ s.allocation_list)
      × ((i : ℕ) → s2.hash_table i ≡ s.hash_table i)
      × (s2.num_records ≡ s.num_records)
      × (s2.stats.total_allocations ≡ u64 (s.stats.total_allocations + 1))
      × (s2.stats.total_deallocations ≡ u64 (s.stats.total_deallocations + 1))
unfolding leak_detector_record_alloc leak_detector_record_dealloc
record_dealloc-record_alloc c granted ptr size class_idx arena_id s l on active not_null new there =
    let t = take_record-IsTaken granted s.free_list s l refl new in
    let (rest, kept) = take_record_keeps granted s.free_list s in
    let s0 = (take_record granted s.free_list s).0 in
    let id = (take_record granted s.free_list s).1 in
    let r = new_record c ptr size class_idx arena_id in
    let test : (s.enabled && s.tracking && not (ptr == 0)) ≡ true = ground arith in
    let found : (id == 0) ≡ false = ground arith in
    let back =
      remove_record-enter_record s0 t.ledger id r (ground (arith, t.fresh there))
        (ground (arith, t.space there)) in
    (
      enter_record id r s0,
      remove_record id (enter_record id r s0),
      simp (leak_detector_record_alloc, test, found, l.linked),
      dealloc-enter_record s0 t.ledger id r (ap (λ x. x.enabled) kept ∙ on)
          (ap (λ x. x.tracking) kept ∙ active) not_null,
      back.0 ∙ ap (λ x. x.allocation_list) kept,
      λ i. back.1 i ∙ ap (λ x. x.hash_table i) kept,
      back.2 ∙ ap (λ x. x.num_records) kept,
      ap (λ x. u64 (x.stats.total_allocations + 1)) kept,
      ap (λ x. u64 (x.stats.total_deallocations + 1)) kept,
    )
