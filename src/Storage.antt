-- ===== src/Storage.antt =====
-- src/crates/storage: the telemetry store's own algorithms.
pub mod Segment
pub mod Merge
pub mod Compaction
pub mod Folding
pub mod Rollups
