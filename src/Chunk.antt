-- ===== src/Chunk.antt =====
-- The chunks of src/memory/chunk.c: a block of address space that hands out small objects from
-- runs and large objects one after the other. A run stands in the list that it is linked in; what
-- the C library answers to the requests for a run and its bitmap is a parameter. The lock and the
-- logging are left out.
pub mod Types
pub mod Small
pub mod Lists
pub mod Counts
pub mod Large
pub mod Runs
pub mod Return
pub mod Overlap
