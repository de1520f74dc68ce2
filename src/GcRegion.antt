-- ===== src/GcRegion.antt =====
-- The region manager of src/gc/gc_region.c, with `struct gc_region` of src/gc/gc_types.h. A region
-- stands at the index of its identity, which also serves as its pointer. An intrusive list is the
-- list of the identities linked in it, and `list_del` of a region that is in no list, whose links
-- are NULL, is a fault (`none`). The locks, the logging and the printing are left out, and so are
-- the lists `reclaim_list` and `compact_list`, which only `INIT_LIST_HEAD` touches,
-- and the fields `arena_id` and `relocation_dest_id`, which this file only clears.
pub mod Types
pub mod Manager
pub mod Space
pub mod Ledger
pub mod Marks
pub mod Release
