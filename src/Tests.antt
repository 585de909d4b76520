-- ===== src/Tests.antt =====
-- Runs of the definitions on small inputs, and the theorems at them.
mod Stores
mod Sets
mod Clustering
mod Script
mod Parser
mod Pipeline
mod Recording
mod Outputs
mod Chain
mod Storage
mod Packing
mod MapReduce
mod Heuristics
mod Joins
