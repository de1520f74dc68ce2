-- ===== src/Leak/Calls.antt =====
-- Sequences of calls of src/debug/leak_detector.c, from the start of the detector.
use native.Mathlib.Decide.{ℕ_discrete}
use nomalloc.Prelude.{
  List, [], ◌∷◌, ℕ, ◌+◌, ◌≡◌, ◌≢◌, ◌⊎◌, refl, sym, ◌∙◌, subst, inl, inr, Bool, true, false, not,
  ◌&&◌, Option, none, if◌then◌else◌, some, ◌==◌, arith, Bool-cases,
}
use nomalloc.Leak.{LeakDetectorStats, LeakDetector}
use nomalloc.Leak.Ops.{
  Caller, leak_detector_init, leak_detector_enable, leak_detector_disable, leak_detector_is_enabled,
  leak_detector_is_tracking, leak_detector_record_alloc, leak_detector_record_dealloc,
  leak_detector_clear, leak_detector_shutdown, clear_loop,
}
use nomalloc.Leak.Report.{sum_sizes, leak_detector_update_stats}
use nomalloc.Leak.Ledger.{count, IsLedger, record_alloc-IsLedger}
use nomalloc.Leak.Tracking.{record_dealloc_outcome}
use nomalloc.Leak.Clearing.{clear-IsLedger}

-- A call that returns, of every function that changes the state. `granted` is the C library's
-- answer, 0 where there is no memory; the address that it grants for a record is that of no record
-- in either list.
pub data Step : LeakDetector → LeakDetector → Type 0 where
  init : (granted : ℕ) (s : LeakDetector) → Step s (leak_detector_init granted s).0
  enable : (granted : ℕ) (s : LeakDetector) → Step s (leak_detector_enable granted s).0
  disable : (s : LeakDetector) → Step s (leak_detector_disable s).0
  record_alloc :
      (c : Caller) (granted ptr size class_idx arena_id : ℕ) (s t : LeakDetector)
      → count granted s.allocation_list + count granted s.free_list ≡ 0
      → leak_detector_record_alloc c granted ptr size class_idx arena_id s ≡ some t
      → Step s t
  record_dealloc :
      (ptr : ℕ) (s t : LeakDetector) → leak_detector_record_dealloc ptr s ≡ some t → Step s t
  update_stats : (s t : LeakDetector) → leak_detector_update_stats s ≡ some t → Step s t
  clear : (s t : LeakDetector) → leak_detector_clear s ≡ some t → Step s t
  shutdown : (s : LeakDetector) → Step s (leak_detector_shutdown s)

pub data Reach (s : LeakDetector) : LeakDetector → Type 0 where
  here : Reach s s
  next : {t u : LeakDetector} → Reach s t → Step t u → Reach s u

-- Off, or in order.
abbrev pub IsSound : LeakDetector → Type 0
IsSound s = (s.enabled ≡ false) ⊎ IsLedger s

abbrev Kept : Option LeakDetector → Type 0
Kept none = Unit {0}
Kept (some s) = IsSound s

dealloc-Kept : (ptr : ℕ) (s : LeakDetector) → IsLedger s → Kept (leak_detector_record_dealloc ptr s)
unfolding leak_detector_record_dealloc
dealloc-Kept ptr s l = elim (Bool-cases (s.enabled && s.tracking && not (ptr == 0))) [
  | inl on ↦ elim (record_dealloc_outcome s ptr l (ground arith) (ground arith) (ground arith)) [
    | inl (id, s', tracks, made, kept, _, _) ↦ subst Kept (sym made) (inr kept)
    | inr (lost, untracked) ↦ subst Kept (sym lost) tt
  ]
  | inr off ↦ rw (leak_detector_record_dealloc, off) (inr l)
]

switched-IsLedger :
    (s : LeakDetector)
    → IsLedger s
    → (on active : Bool) (stats : LeakDetectorStats)
    → IsLedger (record s { enabled = on; tracking = active; stats = stats })
switched-IsLedger s l on active stats = record {
  linked = l.linked;
  once = l.once;
  hashed = l.hashed;
  live = l.live;
  counted = l.counted;
  room = l.room;
  word = l.word;
}

init-IsLedger :
    (granted : ℕ) (s : LeakDetector)
    → s.enabled ≡ false
    → granted ≢ 0
    → IsLedger (leak_detector_init granted s).0
unfolding leak_detector_init count
init-IsLedger granted s off there =
    let test : (granted == 0) ≡ false = ground arith in
    rw (leak_detector_init, off, test)
      (record {
        linked = refl;
        once = λ id. omega arith;
        hashed = λ i id. omega arith;
        live = λ id inside. absurd (omega arith);
        counted = refl;
        room = omega arith;
        word = omega arith;
      })

init_off :
    (granted : ℕ) (s : LeakDetector) → s.enabled ≡ false → IsSound (leak_detector_init granted s).0
unfolding leak_detector_init
init_off granted s off = elim (ℕ_discrete granted 0) [
  | yes lacking ↦ inl (ground arith)
  | no there ↦ inr (init-IsLedger granted s off there)
]

init-IsSound :
    (granted : ℕ) (s : LeakDetector) → IsSound s → IsSound (leak_detector_init granted s).0
unfolding leak_detector_init
init-IsSound granted s (inl off) = init_off granted s off
init-IsSound granted s (inr l) = elim (Bool-cases s.enabled) [
  | inl on ↦ simp (leak_detector_init, on) (inr l)
  | inr off ↦ init_off granted s off
]

clear_loop-enabled : (ids : List ℕ) (s : LeakDetector) → (clear_loop ids s).enabled ≡ s.enabled
unfolding clear_loop
clear_loop-enabled [] s = refl
clear_loop-enabled (id ∷ ids) s = clear_loop-enabled ids _

-- A call of a detector that is off leaves it off.
module _ (s : LeakDetector) (off : s.enabled ≡ false) where
  off_record_alloc :
      (c : Caller) (granted ptr size class_idx arena_id : ℕ)
      → Kept (leak_detector_record_alloc c granted ptr size class_idx arena_id s)
  unfolding leak_detector_record_alloc
  off_record_alloc c granted ptr size class_idx arena_id =
      simp (leak_detector_record_alloc, off) (inl refl)

  off_record_dealloc : (ptr : ℕ) → Kept (leak_detector_record_dealloc ptr s)
  unfolding leak_detector_record_dealloc
  off_record_dealloc ptr = simp (leak_detector_record_dealloc, off) (inl refl)

  off_clear : Kept (leak_detector_clear s)
  unfolding leak_detector_clear
  off_clear = elim (Bool-cases s.linked) [
    | inl there ↦
        simp (leak_detector_clear, there) (inl (clear_loop-enabled s.allocation_list s ∙ off))
    | inr lost ↦ simp (leak_detector_clear, lost) tt
  ]

counted-Kept :
    (b : Bool) (o : Option ℕ) (s : LeakDetector)
    → IsSound s
    → Kept (
        if b
        then elim o [
          | none ↦ none
          | some bytes ↦ some (record s {
            stats = record (s.stats) { leaked_allocations = s.num_records; leaked_bytes = bytes };
          })
        ]
        else none)
counted-Kept false o s sound = tt
counted-Kept true none s sound = tt
counted-Kept true (some bytes) s (inl off) = inl off
counted-Kept true (some bytes) s (inr l) = inr (switched-IsLedger s l s.enabled s.tracking _)

update_stats-Kept : (s : LeakDetector) → IsSound s → Kept (leak_detector_update_stats s)
unfolding leak_detector_update_stats
update_stats-Kept s sound =
    counted-Kept s.linked (sum_sizes s.allocation_list s.record_at 0) s sound

Step-IsSound : {s t : LeakDetector} → Step s t → IsSound s → IsSound t
unfolding leak_detector_enable leak_detector_disable leak_detector_shutdown
Step-IsSound (init granted s) sound = init-IsSound granted s sound
Step-IsSound (enable granted s) (inl off) =
    let same : leak_detector_enable granted s ≡ leak_detector_init granted s = ground arith in
    subst (λ (r : LeakDetector × Bool). IsSound r.0) (sym same) (init_off granted s off)
Step-IsSound (enable granted s) (inr l) = elim (Bool-cases s.enabled) [
  | inl on ↦ rw (leak_detector_enable, on) (inr (switched-IsLedger s l true true _))
  | inr off ↦
      let same : leak_detector_enable granted s ≡ leak_detector_init granted s = ground arith in
      subst (λ (r : LeakDetector × Bool). IsSound r.0) (sym same) (init_off granted s off)
]
Step-IsSound (disable s) (inl off) = simp (leak_detector_disable, off) (inl refl)
Step-IsSound (disable s) (inr l) = elim (Bool-cases s.enabled) [
  | inl on ↦ rw (leak_detector_disable, on) (inr (switched-IsLedger s l true false _))
  | inr off ↦ simp (leak_detector_disable, off) (inl refl)
]
Step-IsSound (record_alloc c granted ptr size class_idx arena_id s t new made) (inl off) =
    subst Kept made (off_record_alloc s off c granted ptr size class_idx arena_id)
Step-IsSound (record_alloc c granted ptr size class_idx arena_id s t new made) (inr l) =
    let (u, e, kept) = record_alloc-IsLedger c granted ptr size class_idx arena_id s l new in
    subst Kept (sym e ∙ made) (inr kept)
Step-IsSound (record_dealloc ptr s t made) (inl off) =
    subst Kept made (off_record_dealloc s off ptr)
Step-IsSound (record_dealloc ptr s t made) (inr l) = subst Kept made (dealloc-Kept ptr s l)
Step-IsSound (update_stats s t made) sound = subst Kept made (update_stats-Kept s sound)
Step-IsSound (clear s t made) (inl off) = subst Kept made (off_clear s off)
Step-IsSound (clear s t made) (inr l) =
    let (u, e, kept, _, _, _, _, _) = clear-IsLedger s l in subst Kept (sym e ∙ made) (inr kept)
Step-IsSound (shutdown s) sound = inl (ground arith)

Reach-IsSound : {s t : LeakDetector} → Reach s t → IsSound s → IsSound t
Reach-IsSound here sound = sound
Reach-IsSound (next r st) sound = Step-IsSound st (Reach-IsSound r sound)

-- Whatever calls that return have been made of a detector that was off at first (among them
-- initialisation and shutdown, at any time, with memory or without), its lists and its counter are
-- in order whenever it is enabled: a record stands in one list at most, the buckets have only
-- records in use, each in the bucket of its pointer, and the counter is their number.
pub Reach-IsLedger :
    {s t : LeakDetector} → s.enabled ≡ false → Reach s t → t.enabled ≡ true → IsLedger t
Reach-IsLedger {s} {t} off r on = elim (Reach-IsSound r (inl off)) [
  | inl off' ↦ absurd (ground arith)
  | inr l ↦ l
]

-- The first `leak_detector_enable` of a detector that is off succeeds if there is memory for the
-- table, and tracks nothing: `leak_detector_record_alloc` changes nothing afterwards. The second
-- call turns the tracking on. After `leak_detector_shutdown` of the tracking detector
-- `leak_detector_is_tracking` still says yes.
pub enable_twice :
    (granted granted' : ℕ) (s : LeakDetector) (c : Caller) (new ptr size class_idx arena_id : ℕ)
    → s.enabled ≡ false
    → granted ≢ 0
    → ((leak_detector_enable granted s).1 ≡ true)
      × (leak_detector_record_alloc c new ptr size class_idx arena_id
            ((leak_detector_enable granted s).0)
          ≡ some ((leak_detector_enable granted s).0))
      × (leak_detector_is_enabled
            ((leak_detector_enable granted' ((leak_detector_enable granted s).0)).0)
          ≡ true)
      × (leak_detector_is_tracking (
            leak_detector_shutdown
              ((leak_detector_enable granted' ((leak_detector_enable granted s).0)).0))
          ≡ true)
unfolding leak_detector_enable leak_detector_init leak_detector_record_alloc
    leak_detector_is_enabled leak_detector_is_tracking leak_detector_shutdown
enable_twice granted granted' s c new ptr size class_idx arena_id off there =
    let test : (granted == 0) ≡ false = ground arith in
    (simp (off, test), simp (off, test), simp (off, test), simp (off, test))
