-- ===== src/Leak/Clearing.antt =====
-- `leak_detector_clear` of src/debug/leak_detector.c.
use nomalloc.Prelude.{
  ℕ, ◌+◌, ◌≤◌, ◌≡◌, refl, ◌∙◌, List, [], ◌∷◌, ◌++◌, some, length, length-append, arith,
}
use nomalloc.Leak.{LeakDetector, unlink}
use nomalloc.Leak.Ops.{clear_loop, leak_detector_clear}
use nomalloc.Leak.Ledger.{
  count, count-append, count-unlink, length-unlink, count_one, count_cons, IsLedger,
}

-- The state inside the loop: what is left of the list of allocations are the records to come.
record IsClearing (ids : List ℕ) (s : LeakDetector) : Type 0 where
  left : (a : ℕ) → count a s.allocation_list ≡ count a ids
  once : (a : ℕ) → count a s.allocation_list + count a s.free_list ≤ 1
  hashed : (i a : ℕ) → count a (s.hash_table i) ≤ count a s.allocation_list

abbrev unlinked : ℕ → LeakDetector → LeakDetector
unlinked id s = record s {
  allocation_list = unlink id s.allocation_list;
  hash_table = λ i. unlink id (s.hash_table i);
  free_list = s.free_list ++ (id ∷ []);
}

unlinked-IsClearing :
    (id : ℕ) (ids : List ℕ) (s : LeakDetector)
    → IsClearing (id ∷ ids) s
    → IsClearing ids (unlinked id s)
unlinked-IsClearing id ids s c = record {
  left = λ a.
      ground (arith, c.left a, c.once a, count_cons a id ids, count-unlink a id s.allocation_list);
  once = λ a. ground (
    arith,
    c.once a,
    c.left id,
    count_cons id id ids,
    count-unlink a id s.allocation_list,
    count-append a s.free_list (id ∷ []),
    count_one a id,
  );
  hashed = λ i a. ground (
    arith,
    c.hashed i a,
    count-unlink a id s.allocation_list,
    count-unlink a id (s.hash_table i),
  );
}

-- What the loop leaves.
record IsCleared (s s' : LeakDetector) : Type 0 where
  clearing : IsClearing [] s'
  lengths :
      length s'.allocation_list + length s'.free_list
      ≡ length s.allocation_list + length s.free_list
  same_linked : s'.linked ≡ s.linked
  same_max : s'.max_records ≡ s.max_records

clear_loop-IsCleared :
    (ids : List ℕ) (s : LeakDetector) → IsClearing ids s → IsCleared s (clear_loop ids s)
unfolding clear_loop
clear_loop-IsCleared [] s c = record {
  clearing = c;
  lengths = refl;
  same_linked = refl;
  same_max = refl;
}
clear_loop-IsCleared (id ∷ ids) s c =
    let rest = clear_loop-IsCleared ids (unlinked id s) (unlinked-IsClearing id ids s c) in
    record {
      clearing = rest.clearing;
      lengths = omega (
        arith,
        rest.lengths,
        length-unlink id s.allocation_list,
        c.left id,
        c.once id,
        count_cons id id ids,
        length-append s.free_list (id ∷ []),
        one id ids,
      );
      same_linked = rest.same_linked;
      same_max = rest.same_max;
    }
  where
    one : (id : ℕ) (ids : List ℕ) → 1 ≤ count id (id ∷ ids)
    one id ids = ground (arith, count_cons id id ids)

empty_of_counts : (xs : List ℕ) → ((a : ℕ) → count a xs ≡ 0) → length xs ≡ 0
unfolding count
empty_of_counts [] none_in = refl
empty_of_counts (x ∷ xs) none_in = absurd (ground (arith, none_in x))

-- On lists that are in order `leak_detector_clear` does not fault, moves every record to the free
-- list, and leaves the lists in order; the totals of calls stay as they are, so that afterwards
-- the number of active allocations that they give is not the number of records, which is 0.
pub clear-IsLedger :
    (s : LeakDetector)
    → IsLedger s
    → (s' : LeakDetector) × (leak_detector_clear s ≡ some s')
      × IsLedger s'
      × (s'.num_records ≡ 0)
      × (length s'.allocation_list ≡ 0)
      × (length s'.free_list ≡ s.num_records + length s.free_list)
      × (s'.stats.total_allocations ≡ s.stats.total_allocations)
      × (s'.stats.total_deallocations ≡ s.stats.total_deallocations)
unfolding leak_detector_clear count
clear-IsLedger s l =
    let d =
      clear_loop-IsCleared s.allocation_list s
        (record { left = λ a. refl; once = l.once; hashed = l.hashed }) in
    let cleared = clear_loop s.allocation_list s in
    let empty : length cleared.allocation_list ≡ 0 =
      empty_of_counts cleared.allocation_list d.clearing.left in
    (
      record cleared {
        num_records = 0;
        stats = record (s.stats) { leaked_allocations = 0; leaked_bytes = 0 };
      },
      simp (leak_detector_clear, l.linked),
      record {
        linked = d.same_linked ∙ l.linked;
        once = d.clearing.once;
        hashed = d.clearing.hashed;
        live = λ a inside. absurd (omega (arith, d.clearing.left a));
        counted = empty;
        room = omega (arith, d.lengths, l.counted, l.room, d.same_max);
        word = omega (arith, d.same_max, l.word);
      },
      refl,
      empty,
      omega (arith, d.lengths, empty, l.counted),
      refl,
      refl,
    )
