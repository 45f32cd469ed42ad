-- ===== src/Doer.antt =====
-- The doers of src/ia_benchmark.c: what a benchmark calls of the driver, and how its run ends.
pub mod Driver
pub mod Quadruple
pub mod Turn
pub mod Run
pub mod Single
pub mod Ends
pub mod Succeeds
pub mod Simulate
pub mod Iterate
pub mod Masks
pub mod Init
pub mod Fulfil
mod Tests
