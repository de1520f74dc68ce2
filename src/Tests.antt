-- ===== src/Tests.antt =====
-- The theorems at concrete inputs.
mod Numbers
mod Blocks
mod Managers
mod Chunks
mod Collectors
mod Rings
mod Leaks
mod Statistics
mod Systems
