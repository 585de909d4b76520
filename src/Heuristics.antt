-- ===== src/Heuristics.antt =====
-- src/blocksci/heuristics: change outputs and joined transactions.
pub mod Candidates
pub mod Change
pub mod CoinJoin
pub mod SumCount
pub mod Legacy
pub mod Deanon
