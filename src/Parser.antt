-- ===== src/Parser.antt =====
-- src/parser: from the node's block files to the analysis data.
pub mod Reader
pub mod RawTx
pub mod ChainIndex
pub mod Bloom
pub mod AddressState
pub mod Utxo
pub mod Recording
pub mod Pipeline
pub mod ScriptOutput
