-- ===== src/Histogram.antt =====
-- The histograms of src/ia_histogram.c.
pub mod Buckets
pub mod State
pub mod Merge
pub mod Add
pub mod Sync
pub mod Tally
mod Tests
