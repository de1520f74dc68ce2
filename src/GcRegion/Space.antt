-- ===== src/GcRegion/Space.antt =====
-- The operations of src/gc/gc_region.c on the space of one region: reclaiming, compaction, and the
-- bitmaps of marked and of live objects.
use nomalloc.Prelude.{ℕ, ◌+◌, ◌*◌, ◌/◌, Bool, true, false, ltb, ◌==◌, if◌then◌else◌, u64, sub64}
use nomalloc.Bitmap.{bitmap_get, bitmap_set, bitmap_clear_bit}
use nomalloc.Memory.{Memory, memset}
use nomalloc.GcRegion.Types.{Region}

-- `garbage_bytes > allocated_bytes * 0.5` is the comparison of the doubles, exact below 2^53.
unfoldable pub gc_region_reclaim : Region → Memory → Region × Memory
gc_region_reclaim r m =
    let garbage = sub64 r.allocated_bytes r.live_bytes in
    (
      record r {
        garbage_bytes = garbage;
        needs_reclaim = if ltb r.allocated_bytes (2 * garbage) then true else r.needs_reclaim;
        allocated_bytes = r.live_bytes;
      },
      memset m (u64 (r.base_addr + r.live_bytes)) 0 garbage,
    )

unfoldable pub gc_region_compact : Region → Region
gc_region_compact r =
    if r.is_compacting_target
    then record r { allocated_bytes = r.live_bytes; is_compacting_target = false }
    else r

-- The bit of the object at `ptr`.
abbrev pub object_bit : Region → ℕ → ℕ
object_bit r ptr = sub64 ptr r.base_addr / 8

unfoldable pub gc_region_mark_object : Region → ℕ → Region
gc_region_mark_object r ptr =
    if ptr == 0
    then r
    else record r { marking_bitmap = bitmap_set r.marking_bitmap (object_bit r ptr) }

unfoldable pub gc_region_unmark_object : Region → ℕ → Region
gc_region_unmark_object r ptr =
    if ptr == 0
    then r
    else record r { marking_bitmap = bitmap_clear_bit r.marking_bitmap (object_bit r ptr) }

unfoldable pub gc_region_is_marked : Region → ℕ → Bool
gc_region_is_marked r ptr =
    if ptr == 0 then false else bitmap_get r.marking_bitmap (object_bit r ptr)

unfoldable pub gc_region_set_live : Region → ℕ → Region
gc_region_set_live r ptr =
    if ptr == 0 then r else record r { live_bitmap = bitmap_set r.live_bitmap (object_bit r ptr) }

unfoldable pub gc_region_is_live : Region → ℕ → Bool
gc_region_is_live r ptr = if ptr == 0 then false else bitmap_get r.live_bitmap (object_bit r ptr)
