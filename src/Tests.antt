-- ===== src/Tests.antt =====
-- The theorems at concrete inputs.
mod Data
mod Prefixes
mod Buffers
mod Messages
mod Routes
mod Passes
mod Output
mod Waiting
mod Whole
mod Runs
mod Wire
mod Interleaved
mod Serialized
mod Counts
