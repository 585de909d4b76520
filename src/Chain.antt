-- ===== src/Chain.antt =====
-- The chain that the analysis library reads: src/blocksci/chain and src/blocksci/address.
pub mod Types
pub mod MapReduce
pub mod Inout
