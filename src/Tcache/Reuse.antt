-- ===== src/Tcache/Reuse.antt =====
-- What the thread cache of src/cache/tcache.c gives back.
use nomalloc.Prelude.{
  ℕ, ◌+◌, ◌%◌, ◌≤◌, ◌<◌, ◌≡◌, ◌≢◌, refl, ap, ◌∙◌, true, false, not, ◌||◌, Option, some, ltb, ◌==◌,
  u64, sub64, arith,
}
use nomalloc.SizeClass.{size_to_class, size_to_class_small}
use nomalloc.Chunk.Types.{Chunk, ptr_to_chunk}
use nomalloc.Arena.Guess.{guess_class_first, if_false}
use nomalloc.Tcache.{
  TcacheBin, Tcache, set_bin, push_object, pop_object, tcache_alloc, keep_object, tcache_free,
}
use nomalloc.Tcache.Bins.{IsBin, IsTcache}

class_tiny : (size : ℕ) → size ≤ 8 → size_to_class size ≡ 0
unfolding size_to_class size_to_class_small
class_tiny size tiny = ground arith

set_bin_self : (c : ℕ) (bin : TcacheBin) (bins : ℕ → TcacheBin) → set_bin c bin bins c ≡ bin
unfolding set_bin
set_bin_self c bin bins = ground arith

keep_room :
    (c ptr : ℕ) (tc : Tcache)
    → (tc.bins c).count < (tc.bins c).capacity
    → keep_object c ptr tc ≡ (
      record tc {
        bins = set_bin c (push_object ptr (tc.bins c)) tc.bins;
        free_count = u64 (tc.free_count + 1);
      },
      true,
    )
unfolding keep_object
keep_room c ptr tc room =
    let test : ltb (tc.bins c).count (tc.bins c).capacity ≡ true = ground arith in
    rw (keep_object, test) refl

-- A hit in the bin of 8 bytes.
alloc_hit :
    (size : ℕ) (tc : Tcache)
    → tc.active ≡ true
    → 0 < size
    → size ≤ 8
    → 0 < (tc.bins 0).count
    → ((tcache_alloc size tc).1 ≡ (pop_object (tc.bins 0)).1)
      × ((tcache_alloc size tc).0.bins 0 ≡ (pop_object (tc.bins 0)).0)
unfolding tcache_alloc
alloc_hit size tc act pos tiny hit =
    let test : (not tc.active || size == 0) ≡ false = ground arith in
    let full : ltb 0 (tc.bins 0).count ≡ true = ground arith in
    rw (tcache_alloc, class_tiny size tiny, test, full) (refl, set_bin_self 0 _ tc.bins)

pop-push :
    (ptr : ℕ) (bin : TcacheBin)
    → IsBin bin
    → bin.count < bin.capacity
    → ((pop_object (push_object ptr bin)).1 ≡ ptr)
      × ((pop_object (push_object ptr bin)).0.count ≡ bin.count)
      × (0 < (push_object ptr bin).count)
unfolding pop_object push_object
pop-push ptr bin ok room =
    let n : u64 (bin.count + 1) ≡ bin.count + 1 = omega (arith, ok.room) in
    let back : sub64 (bin.count + 1) 1 ≡ bin.count = omega (arith, ok.room) in
    (rw (n, back) (ground arith), rw (n, back) refl, omega (arith, n))

-- A pointer that `tcache_free` keeps, at an offset in its chunk that 8 divides, is what the next
-- `tcache_alloc` of at most 8 bytes returns, whatever size the block has; the bin then holds as
-- many objects as before.
pub tcache_alloc-tcache_free :
    (chunks : ℕ → Option Chunk) (ptr size : ℕ) (tc : Tcache) (ch : Chunk)
    → IsTcache tc
    → tc.active ≡ true
    → ptr ≢ 0
    → chunks (ptr_to_chunk ptr) ≡ some ch
    → ch.is_large ≡ false
    → sub64 ptr ch.base_addr % 8 ≡ 0
    → sub64 ptr ch.base_addr < ch.size
    → (tc.bins 0).count < (tc.bins 0).capacity
    → (0 < size) × (size ≤ 8)
    → (tc' : Tcache) × (tcache_free chunks ptr tc ≡ some (tc', true))
      × ((tcache_alloc size tc').1 ≡ ptr)
      × (((tcache_alloc size tc').0.bins 0).count ≡ (tc.bins 0).count)
unfolding tcache_free
tcache_alloc-tcache_free chunks ptr size tc ch ok act not_null here small aligned inside room
      (pos, tiny) =
    let bin = push_object ptr (tc.bins 0) in
    let tc' = record tc { bins = set_bin 0 bin tc.bins; free_count = u64 (tc.free_count + 1) } in
    let test : (ptr == 0 || not tc.active) ≡ false = ground arith in
    let same = set_bin_self 0 bin tc.bins in
    let back = pop-push ptr (tc.bins 0) (ok 0) room in
    let hit = alloc_hit size tc' act pos tiny (rw same back.2) in
    (
      tc',
      rw (tcache_free, test, here, guess_class_first _ _ aligned inside, keep_room 0 ptr tc room)
          (if_false _ _ _ small),
      hit.0 ∙ ap (λ b. (pop_object b).1) same ∙ back.0,
      ap (λ b. b.count) hit.1 ∙ ap (λ b. (pop_object b).0.count) same ∙ back.1,
    )
