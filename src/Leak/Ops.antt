-- ===== src/Leak/Ops.antt =====
-- The calls of src/debug/leak_detector.c that change the state.
use nomalloc.Prelude.{
  ℕ, ◌+◌, Bool, true, false, not, ◌&&◌, List, [], ◌∷◌, ◌++◌, Option, none, some, ltb, ◌==◌,
  if◌then◌else◌, u64, sub64,
}
use nomalloc.Leak.{
  AllocationRecord, LeakDetectorStats, LeakDetector, leak_detector_max_allocations, leak_hash_index,
  unlink, zeroed,
}

-- `granted` is the C library's answer for the array of records; `true` stands for 0.
unfoldable pub leak_detector_init : ℕ → LeakDetector → LeakDetector × Bool
leak_detector_init granted s =
    let cleared = record zeroed {
      max_records = leak_detector_max_allocations;
      records = granted;
    } in
    if s.enabled
    then (s, true)
    else if granted == 0
    then (cleared, false)
    else (record cleared { linked = true; enabled = true }, true)

abbrev pub set_active : ℕ → LeakDetector → LeakDetector
set_active v s = record s { stats = record (s.stats) { tracking_active = v } }

unfoldable pub leak_detector_enable : ℕ → LeakDetector → LeakDetector × Bool
unfolding leak_detector_init
leak_detector_enable granted s =
    if s.enabled
    then (set_active 1 (record s { tracking = true }), true)
    else leak_detector_init granted s

unfoldable pub leak_detector_disable : LeakDetector → LeakDetector × Bool
leak_detector_disable s =
    if s.enabled then (set_active 0 (record s { tracking = false }), true) else (s, false)

unfoldable pub leak_detector_is_enabled : LeakDetector → Bool
leak_detector_is_enabled s = s.enabled && s.tracking

unfoldable pub leak_detector_is_tracking : LeakDetector → Bool
leak_detector_is_tracking s = not (s.stats.tracking_active == 0)

-- What a call finds around it: the thread, the time and the frames on the stack.
pub record Caller : Type 0 where
  pub thread_id : ℕ
  pub timestamp : ℕ
  pub frames : List ℕ

-- A record from the free list, or a new one at `granted`; 0 if there is none.
unfoldable pub take_record : ℕ → List ℕ → LeakDetector → LeakDetector × ℕ
take_record granted [] s = if ltb s.num_records s.max_records then (s, granted) else (s, 0)
take_record granted (id ∷ rest) s = (record s { free_list = rest }, id)

abbrev pub count_record : ℕ → ℕ → LeakDetectorStats → LeakDetectorStats
count_record current size t = record t {
  total_allocations = u64 (t.total_allocations + 1);
  peak_allocations = if ltb t.peak_allocations current then current else t.peak_allocations;
  peak_bytes = if ltb t.peak_allocations current then u64 (t.peak_bytes + size) else t.peak_bytes;
}

unfoldable pub enter_record : ℕ → AllocationRecord → LeakDetector → LeakDetector
enter_record id r s = record s {
  record_at = λ a. if a == id then some r else s.record_at a;
  hash_table = λ i. if i == leak_hash_index r.ptr then id ∷ s.hash_table i else s.hash_table i;
  allocation_list = s.allocation_list ++ (id ∷ []);
  num_records = u64 (s.num_records + 1);
  stats = count_record (u64 (s.num_records + 1)) r.size s.stats;
}

abbrev pub new_record : Caller → ℕ → ℕ → ℕ → ℕ → AllocationRecord
new_record c ptr size class_idx arena_id = record {
  ptr = ptr;
  size = size;
  class_idx = class_idx;
  arena_id = arena_id;
  thread_id = c.thread_id;
  timestamp = c.timestamp;
  stack_trace = c.frames;
}

unfoldable pub leak_detector_record_alloc :
    Caller → ℕ → ℕ → ℕ → ℕ → ℕ → LeakDetector → Option LeakDetector
unfolding take_record enter_record leak_hash_index
leak_detector_record_alloc c granted ptr size class_idx arena_id s =
    let taken = take_record granted s.free_list s in
    if s.enabled && s.tracking && not (ptr == 0)
    then if s.linked
      then some (
          if taken.1 == 0
          then s
          else enter_record (taken.1) (new_record c ptr size class_idx arena_id) (taken.0))
      else none
    else some s

-- The loop of `leak_detector_record_dealloc`. At the end of the bucket `hlist_for_each_entry` goes
-- on with the address that lies the offset of `hash_node` below NULL, whose pointer is read.
unfoldable pub find_record : List ℕ → ℕ → (ℕ → Option AllocationRecord) → Option ℕ
find_record [] ptr at = none
find_record (id ∷ ids) ptr at =
    let rest = find_record ids ptr at in
    elim (at id) [ none ↦ none | some r ↦ if r.ptr == ptr then some id else rest ]

unfoldable pub clear_record : Option AllocationRecord → Option AllocationRecord
clear_record none = none
clear_record (some r) = some (record r { ptr = 0; size = 0 })

unfoldable pub remove_record : ℕ → LeakDetector → LeakDetector
unfolding clear_record unlink
remove_record id s = record s {
  record_at = λ a. if a == id then clear_record (s.record_at id) else s.record_at a;
  hash_table = λ i. unlink id (s.hash_table i);
  allocation_list = unlink id s.allocation_list;
  free_list = s.free_list ++ (id ∷ []);
  num_records = sub64 s.num_records 1;
  stats = record (s.stats) { total_deallocations = u64 (s.stats.total_deallocations + 1) };
}

unfoldable pub leak_detector_record_dealloc : ℕ → LeakDetector → Option LeakDetector
unfolding find_record remove_record leak_hash_index
leak_detector_record_dealloc ptr s =
    if s.enabled && s.tracking && not (ptr == 0)
    then elim (find_record (s.hash_table (leak_hash_index ptr)) ptr s.record_at) [
      | none ↦ none
      | some id ↦ some (remove_record id s)
    ]
    else some s

-- The loop of `leak_detector_clear`, which moves each record to the end of the free list.
unfoldable pub clear_loop : List ℕ → LeakDetector → LeakDetector
clear_loop [] s = s
clear_loop (id ∷ ids) s = clear_loop ids (record s {
  allocation_list = unlink id s.allocation_list;
  hash_table = λ i. unlink id (s.hash_table i);
  free_list = s.free_list ++ (id ∷ []);
})

unfoldable pub leak_detector_clear : LeakDetector → Option LeakDetector
unfolding clear_loop
leak_detector_clear s =
    let cleared = clear_loop s.allocation_list s in
    if s.linked
    then some (record cleared {
      num_records = 0;
      stats = record (s.stats) { leaked_allocations = 0; leaked_bytes = 0 };
    })
    else none

-- The two loops of `leak_detector_shutdown`.
unfoldable pub free_records : List ℕ → LeakDetector → LeakDetector
free_records [] s = s
free_records (id ∷ ids) s = free_records ids (record s {
  allocation_list = unlink id s.allocation_list;
  free_list = unlink id s.free_list;
  hash_table = λ i. unlink id (s.hash_table i);
  record_at = λ a. if a == id then none else s.record_at a;
})

unfoldable pub leak_detector_shutdown : LeakDetector → LeakDetector
unfolding free_records
leak_detector_shutdown s =
    let emptied = free_records s.free_list (free_records s.allocation_list s) in
    if s.enabled
    then record emptied { records = 0; num_records = 0; enabled = false; tracking = false }
    else s
