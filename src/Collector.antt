-- ===== src/Collector.antt =====
-- The collector of src/gc/gc.c: its global state, its settings, and its collections over the
-- regions of the region manager. The locks and the logging are left out; the calls of the clock
-- and of the C library's `malloc` are arguments. A `double` is its bit pattern.
pub mod Doubles
pub mod State
pub mod Settings
pub mod Configured
pub mod Collect
pub mod Objects
pub mod Marked
pub mod Sweep
pub mod Cycles
pub mod Promotion
