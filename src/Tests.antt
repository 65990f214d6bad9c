-- ===== src/Tests.antt =====
-- Concrete runs, and each result at a concrete input.
pub mod Sums
pub mod Samples
mod Nodes
mod Sets
mod Updates
mod Maps
mod Pairs
pub mod Skip
mod Shared
mod Coherent
mod Iterate
mod Owned
