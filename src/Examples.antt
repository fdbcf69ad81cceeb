-- ===== src/Examples.antt =====
-- The theorems at concrete inputs.
pub mod Arena
mod Clients
mod Edges
mod Files
mod Malloc
mod Parts
pub mod Ranges
pub mod Runs
pub mod Timing
mod Whole
