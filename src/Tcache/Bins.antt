-- ===== src/Tcache/Bins.antt =====
-- The bins of src/cache/tcache.c.
use nomalloc.Prelude.{
  ℕ, zero, suc, ◌+◌, ◌/◌, ◌≤◌, ◌<◌, ◌≡◌, ◌≢◌, inl, inr, refl, subst, Bool, true, false, not, ◌||◌,
  Option, none, some, ltb, ◌==◌, if◌then◌else◌, sub64, arith, Bool-cases, Option-cases,
}
use nomalloc.SizeClass.{size_to_class, class_to_size, is_large_class_idx}
use nomalloc.Chunk.Types.{Chunk, ptr_to_chunk}
use nomalloc.Arena.Heap.{ArenaHeap, ChunkGrant, arena_malloc, arena_free}
use nomalloc.Tcache.{
  TcacheBin, Tcache, set_bin, push_object, pop_object, tcache_alloc, keep_object, tcache_free,
  fill_loop, smaller, tcache_fill, flush_loop, tcache_flush,
}

-- A bin holds no more than it has room for, and has room for 32 objects at most.
pub record IsBin (bin : TcacheBin) : Type 0 where
  pub held : bin.count ≤ bin.capacity
  pub room : bin.capacity ≤ 32

abbrev pub IsTcache : Tcache → Type 0
IsTcache tc = (c : ℕ) → IsBin (tc.bins c)

set_bin-IsBin :
    (c : ℕ) (bin : TcacheBin) (bins : ℕ → TcacheBin)
    → IsBin bin
    → ((d : ℕ) → IsBin (bins d))
    → (d : ℕ) → IsBin (set_bin c bin bins d)
unfolding set_bin
set_bin-IsBin c bin bins ok all d = elim (Bool-cases (d == c)) [
  | inl e ↦ rw e ok
  | inr e ↦ rw e (all d)
]

push_object-IsBin :
    (ptr : ℕ) (bin : TcacheBin) → IsBin bin → bin.count < bin.capacity → IsBin (push_object ptr bin)
unfolding push_object
push_object-IsBin ptr bin ok less = record { held = omega (arith, ok.room); room = ok.room }

pushed_count :
    (ptr : ℕ) (bin : TcacheBin) (left : ℕ)
    → IsBin bin
    → suc left + bin.count ≤ bin.capacity
    → left + (push_object ptr bin).count ≤ (push_object ptr bin).capacity
unfolding push_object
pushed_count ptr bin left ok room = omega (arith, ok.room)

pop_object-IsBin : (bin : TcacheBin) → IsBin bin → bin.count ≢ 0 → IsBin (pop_object bin).0
unfolding pop_object
pop_object-IsBin bin ok some_left = record {
  held = omega (arith, ok.held, ok.room);
  room = ok.room;
}

fill_loop-IsBin :
    (left c : ℕ) (got : ℕ → ChunkGrant) (bin : TcacheBin) (h : ArenaHeap)
    → IsBin bin
    → left + bin.count ≤ bin.capacity
    → IsBin (fill_loop left c got bin h).0
unfolding fill_loop
fill_loop-IsBin zero c got bin h ok room = ok
fill_loop-IsBin (suc left) c got bin h ok room =
    elim (Bool-cases ((arena_malloc (got left) (class_to_size c) h).1 == 0)) [
      | inl e ↦ rw (fill_loop, e) ok
      | inr e ↦
          rw (fill_loop, e)
            (fill_loop-IsBin left c got _ _ (push_object-IsBin _ bin ok (omega arith))
              (pushed_count _ bin left ok room))
    ]

abbrev Kept : Option (TcacheBin × Option ArenaHeap) → Type 0
Kept none = Unit {0}
Kept (some s) = IsBin s.0

popped :
    (left : ℕ) (bin : TcacheBin) (arena : Option ArenaHeap)
    → ((b : TcacheBin) (a : Option ArenaHeap) → IsBin b → Kept (flush_loop left b a))
    → IsBin (pop_object bin).0
    → Kept (elim arena [
      | none ↦ flush_loop left (pop_object bin).0 none
      | some h ↦ elim (arena_free (pop_object bin).1 h) [
        | none ↦ none
        | some h' ↦ flush_loop left (pop_object bin).0 (some h')
      ]
    ])
popped left bin none all ok = all _ none ok
popped left bin (some h) all ok = elim (Option-cases (arena_free (pop_object bin).1 h)) [
  | inl e ↦ rw e tt
  | inr (h', e) ↦ rw e (all _ (some h') ok)
]

flush_loop-IsBin :
    (left : ℕ) (bin : TcacheBin) (arena : Option ArenaHeap)
    → IsBin bin
    → Kept (flush_loop left bin arena)
unfolding flush_loop
flush_loop-IsBin zero bin arena ok = ok
flush_loop-IsBin (suc left) bin arena ok = elim (Bool-cases (bin.count == 0)) [
  | inl e ↦ rw (flush_loop, e) (flush_loop-IsBin left bin arena ok)
  | inr e ↦
      rw (flush_loop, e)
        (popped left bin arena (flush_loop-IsBin left) (pop_object-IsBin bin ok (ground arith)))
]

-- The cache, if the call returns.
abbrev pub KeptCache : {A : Type 0} → Option (Tcache × A) → Type 0
KeptCache none = Unit {0}
KeptCache (some s) = IsTcache s.0

either :
    {A : Type 0} (b : Bool) (x y : Tcache × A)
    → (b ≡ true → IsTcache x.0)
    → (b ≡ false → IsTcache y.0)
    → IsTcache (if b then x else y).0
either true x y p q = p refl
either false x y p q = q refl

tcache_alloc-IsTcache : (size : ℕ) (tc : Tcache) → IsTcache tc → IsTcache (tcache_alloc size tc).0
unfolding tcache_alloc
tcache_alloc-IsTcache size tc ok =
    let c = size_to_class size in
    either (not tc.active || size == 0) _ _ (λ e. ok)
      (λ e.
        either (is_large_class_idx c) _ _ (λ e. ok)
          (λ e.
            either (ltb 0 (tc.bins c).count) _ _
              (λ some_left.
                set_bin-IsBin c _ tc.bins (pop_object-IsBin (tc.bins c) (ok c) (ground arith)) ok)
              (λ e. ok)))

keep_object-IsTcache : (c ptr : ℕ) (tc : Tcache) → IsTcache tc → IsTcache (keep_object c ptr tc).0
unfolding keep_object
keep_object-IsTcache c ptr tc ok = elim (Bool-cases (ltb (tc.bins c).count (tc.bins c).capacity)) [
  | inl e ↦
      rw (keep_object, e)
        (set_bin-IsBin c _ tc.bins (push_object-IsBin ptr _ (ok c) (ground arith)) ok)
  | inr e ↦ rw (keep_object, e) ok
]

kept_if :
    {A : Type 0} (b : Bool) (x y : Tcache × A)
    → IsTcache x.0
    → IsTcache y.0
    → KeptCache (if b then some x else some y)
kept_if true x y p q = p
kept_if false x y p q = q

tcache_free-IsTcache :
    (chunks : ℕ → Option Chunk) (ptr : ℕ) (tc : Tcache)
    → IsTcache tc
    → KeptCache (tcache_free chunks ptr tc)
unfolding tcache_free
tcache_free-IsTcache chunks ptr tc ok = elim (Bool-cases (ptr == 0 || not tc.active)) [
  | inl e ↦ rw e ok
  | inr e ↦ elim (Option-cases (chunks (ptr_to_chunk ptr))) [
    | inl n ↦ rw (e, n) tt
    | inr (ch, n) ↦ rw (e, n) (kept_if ch.is_large _ _ ok (keep_object-IsTcache _ ptr tc ok))
  ]
]

tcache_fill-IsTcache :
    (got : ℕ → ChunkGrant) (size : ℕ) (tc : Tcache) (arena : Option ArenaHeap)
    → IsTcache tc
    → IsTcache (tcache_fill got size tc arena).0
unfolding tcache_fill
tcache_fill-IsTcache got size tc none ok = ok
tcache_fill-IsTcache got size tc (some h) ok =
    let c = size_to_class size in
    let bin = tc.bins c in
    let room : smaller (sub64 bin.capacity bin.count) 16 + bin.count ≤ bin.capacity =
      ground (arith, (ok c).held, (ok c).room) in
    either (size == 0 || is_large_class_idx c) _ _ (λ e. ok)
      (λ e. set_bin-IsBin c _ tc.bins (fill_loop-IsBin _ c got bin h (ok c) room) ok)

tcache_flush-IsTcache :
    (size : ℕ) (tc : Tcache) (arena : Option ArenaHeap)
    → IsTcache tc
    → KeptCache (tcache_flush size tc arena)
unfolding tcache_flush
tcache_flush-IsTcache size tc arena ok =
    let c = size_to_class size in
    elim (Bool-cases (size == 0 || is_large_class_idx c)) [
      | inl e ↦ rw (tcache_flush, e) ok
      | inr e ↦
          let kept = flush_loop-IsBin ((tc.bins c).count / 2) (tc.bins c) arena (ok c) in
          elim (Option-cases (flush_loop ((tc.bins c).count / 2) (tc.bins c) arena)) [
            | inl n ↦ rw (tcache_flush, e, n) tt
            | inr (s, n) ↦
                rw (tcache_flush, e, n) (set_bin-IsBin c s.0 tc.bins (subst Kept n kept) ok)
          ]
    ]

-- No call takes a bin past its room, or its room past 32 objects: `tcache_alloc` and
-- `tcache_fill`, which always return, nor `tcache_free` and `tcache_flush` where they return.
pub tcache-IsTcache :
    (size ptr : ℕ) (tc : Tcache)
    → IsTcache tc
    → IsTcache (tcache_alloc size tc).0
      × ((got : ℕ → ChunkGrant) (arena : Option ArenaHeap)
          → IsTcache (tcache_fill got size tc arena).0)
      × ((chunks : ℕ → Option Chunk) → KeptCache (tcache_free chunks ptr tc))
      × ((arena : Option ArenaHeap) → KeptCache (tcache_flush size tc arena))
tcache-IsTcache size ptr tc ok = (
  tcache_alloc-IsTcache size tc ok,
  λ got arena. tcache_fill-IsTcache got size tc arena ok,
  λ chunks. tcache_free-IsTcache chunks ptr tc ok,
  λ arena. tcache_flush-IsTcache size tc arena ok,
)
