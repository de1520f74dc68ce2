-- ===== src/Allocator.antt =====
-- The allocator of src/core/allocator.c over the C library, as a state machine on one thread: a
-- header of 32 bytes in front of each block, the counters of allocated and freed bytes, and the
-- two flags of the initialisation. An operation takes the state and returns it with its result.
pub mod Header
pub mod State
pub mod Init
pub mod Ops
pub mod Sizes
pub mod Blocks
pub mod Free
pub mod Realloc
pub mod Grow
pub mod Aligned
pub mod Calloc
pub mod Start
