-- ===== src/GcRegion/Marks.antt =====
-- The marks of src/gc/gc_region.c.
use nomalloc.Prelude.{
  ℕ, ◌+◌, ◌-◌, ◌*◌, ◌/◌, ◌^◌, ◌≤◌, ◌<◌, ◌≡◌, ◌≢◌, true, false, if◌then◌else◌, ◌==◌, length, arith,
}
use nomalloc.Bitmap.Access.{bitmap_get-bitmap_set, bitmap_get-bitmap_clear_bit}
use nomalloc.GcRegion.Types.{Region}
use nomalloc.GcRegion.Space.{
  object_bit, gc_region_mark_object, gc_region_unmark_object, gc_region_is_marked,
}

-- An address of the region, whose bitmaps have a bit for each 8 bytes.
pub record IsInside (r : Region) (p : ℕ) : Type 0 where
  pub above : r.base_addr ≤ p
  pub below : p < r.base_addr + r.size
  pub address : p < 2 ^ 64
  pub not_null : p ≢ 0
  pub bits : r.size ≤ 8 * (64 * length r.marking_bitmap)

-- Marking an object marks the addresses of its 8 bytes granule and no other, and unmarking
-- clears the same: after either, an address of the granule is marked or not accordingly, and
-- every other address as before.
pub gc_region_is_marked-mark :
    (r : Region) (p q : ℕ)
    → IsInside r p
    → IsInside r q
    → (gc_region_is_marked (gc_region_mark_object r p) q ≡ (
        if (p - r.base_addr) / 8 == (q - r.base_addr) / 8 then true else gc_region_is_marked r q))
      × (gc_region_is_marked (gc_region_unmark_object r p) q ≡ (
          if (p - r.base_addr) / 8 == (q - r.base_addr) / 8
          then false
          else gc_region_is_marked r q))
unfolding gc_region_is_marked gc_region_mark_object gc_region_unmark_object
gc_region_is_marked-mark r p q inp inq =
    let bp : object_bit r p ≡ (p - r.base_addr) / 8 = omega (arith, inp.above, inp.address) in
    let bq : object_bit r q ≡ (q - r.base_addr) / 8 = omega (arith, inq.above, inq.address) in
    let room : object_bit r p < 64 * length r.marking_bitmap =
      omega (arith, inp.above, inp.below, inp.bits, bp) in
    (
      ground (
        arith,
        inp.not_null,
        inq.not_null,
        bp,
        bq,
        bitmap_get-bitmap_set r.marking_bitmap (object_bit r p) (object_bit r q) room,
      ),
      ground (
        arith,
        inp.not_null,
        inq.not_null,
        bp,
        bq,
        bitmap_get-bitmap_clear_bit r.marking_bitmap (object_bit r p) (object_bit r q) room,
      ),
    )
