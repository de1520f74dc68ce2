-- ===== src/Stats.antt =====
-- The statistics of src/debug/stats_collector.c and src/debug/stats_collector.h on one thread.
pub mod Histogram
pub mod Types
pub mod Ops
pub mod Reads
pub mod Samples
pub mod Percentiles
pub mod History
pub mod Counters
pub mod Calls
