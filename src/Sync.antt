-- ===== src/Sync.antt =====
-- The delta sync protocol of internal/sync: vector clocks and Merkle trees.
pub mod Clock
pub mod Merkle
