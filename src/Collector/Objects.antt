-- ===== src/Collector/Objects.antt =====
-- The write barriers of src/gc/gc.c and its registration of objects.
use nomalloc.Prelude.{ℕ, ◌+◌, not, ◌||◌, none, some, ◌==◌, if◌then◌else◌, u64, sub64}
use nomalloc.GcRegion.Types.{Region, put}
use nomalloc.GcRegion.Manager.{gc_region_get_by_addr}
use nomalloc.GcRegion.Space.{gc_region_mark_object, gc_region_is_live}
use nomalloc.Collector.State.{Gc}

-- The region `r` in place of the one of its identity.
abbrev pub with_region : Region → Gc → Gc
with_region r g = record g {
  manager = record (g.manager) { regions = put r.id r g.manager.regions };
}

unfoldable pub gc_write_barrier : ℕ → Gc → Gc
gc_write_barrier ptr g =
    if not g.initialized || not g.concurrent_active
    then g
    else elim (gc_region_get_by_addr ptr g.manager) [
      | none ↦ g
      | some r ↦ with_region (gc_region_mark_object r ptr) g
    ]

unfoldable pub gc_write_barrier_pre : ℕ → ℕ → Gc → Gc
gc_write_barrier_pre old_value new_value g =
    if not g.initialized || not g.concurrent_active || old_value == 0
    then g
    else elim (gc_region_get_by_addr old_value g.manager) [
      | none ↦ g
      | some r ↦
          if gc_region_is_live r old_value
          then with_region (gc_region_mark_object r old_value) g
          else g
    ]

unfoldable pub gc_register_object : ℕ → ℕ → Gc → Gc
gc_register_object ptr size g =
    if not g.initialized || ptr == 0 then g else elim (gc_region_get_by_addr ptr g.manager) [
      | none ↦ g
      | some r ↦
          record (with_region (record r { allocated_bytes = u64 (r.allocated_bytes + size) }) g) {
            stats = record (g.stats) { young_gen_size = u64 (g.stats.young_gen_size + size) };
          }
    ]

unfoldable pub gc_unregister_object : ℕ → Gc → Gc
gc_unregister_object ptr g =
    if not g.initialized || ptr == 0 then g else elim (gc_region_get_by_addr ptr g.manager) [
      | none ↦ g
      | some r ↦ with_region (record r { allocated_bytes = sub64 r.allocated_bytes r.size }) g
    ]
