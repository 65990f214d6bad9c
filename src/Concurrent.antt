-- ===== src/Concurrent.antt =====
-- src/concurrent: the set and the map that threads share. A mutex-guarded node is an address in a
-- store of nodes, and the steps that a call takes under one acquisition of its locks are one function.
pub mod SkipMap
pub mod Operation
pub mod Set
pub mod Removal
pub mod Lookup
pub mod Map
pub mod Range
pub mod Coherent
pub mod Races
pub mod Iter
pub mod Span
pub mod MultiMap
pub mod Stale
