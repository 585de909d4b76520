-- ===== src/Lib.antt =====
-- BlockSci: a parser that turns the block files of a Bitcoin node into analysis data, and a library
-- that reads them. Paths are from the root of the repository.
--
-- The parser (src/parser) finds the blocks and their order (ChainIndex, updateChain), reads each
-- transaction from the mapped file (SafeMemReader, RawTransaction), connects each input with the
-- output it spends (connectUTXOs on UTXOState) and gives each address a number (AddressState, which
-- a Bloom filter and a map of the addresses seen twice keep from asking the database). The library
-- (src/blocksci) has the scripts, the transactions and outputs, and heuristics on top of them.
--
--   Script.Opcode, GetOp, Push    opcodes, GetOp2, operator<< and small integers of
--                                 src/blocksci/scripts/bitcoin_script.hpp
--   Script.Num                    CScriptNum of the same file
--   Script.Walk, Inspect          the loop over GetOp, and the predicates of bitcoin_script.cpp, which
--                                 script_view.cpp repeats
--   Script.Assembly, Witness      scripts as instructions, and the form of a witness program
--   Chain.Types                   src/blocksci/address and src/blocksci/chain, as far as the heuristics
--                                 need them
--   Chain.Inout                   the packed word of src/blocksci/chain/inout.hpp and inout.cpp
--   Heuristics                    src/blocksci/heuristics/change_address.cpp, and of
--                                 tx_identification.cpp isCoinjoin, isCoinjoinExtra,
--                                 isPossibleCoinjoin, getSumCount and isDeanonTx
--   Parser.Reader                 src/parser/safe_mem_reader.hpp and serializeCompact
--   Parser.RawTx                  RawTransaction::load and TransactionHeader of
--                                 src/parser/preproccessed_block.cpp
--   Parser.ChainIndex             src/parser/chain_index.hpp, and the split point of updateChain in
--                                 src/parser/main.cpp
--   Parser.Bloom, AddressState    src/parser/bloom_filter.cpp, address_state.hpp, address_state.cpp
--   Parser.Utxo                   connectUTXOs of src/parser/block_processor.cpp, on the map of
--                                 src/parser/serializable_map.hpp
--   Chain.MapReduce               mapReduce, map, segmentChain and segmentChainIndexes
--                                 (src/blocksci/chain/blockchain.hpp and blockchain.cpp). The loop has one round more than blocks and the
--                                 recursion the number of segments as depth
--   Parser.Recording              recordAddresses and generateScriptInput of the same file, on the maps
--                                 of utxo_state.hpp and utxo_address_state.hpp
--   Parser.Pipeline               ProcessStep and the threads of addNewBlocks of
--                                 src/parser/block_processor.cpp. Exceptions are events of
--                                 Parser.Pipeline.Faults; a function that does not return leaves
--                                 its step without further turns
--   Parser.ScriptOutput           extractScriptData of src/parser/script_output.cpp
--   Storage.Mapper, Records,      src/blocksci/util/file_mapper.hpp and file_mapper.cpp
--   Storage.Indexed
--   Storage.Writer                src/parser/file_writer.hpp
--   Clustering                    src/clustering of this repository: the clusterer's main.cpp and
--                                 libcluster/cluster_manager.cpp
--   Tests                         runs on small inputs
--
-- An iterator into a script is the list of the bytes ahead of it; a file is its list of bytes, and
-- a reader an offset into it. A machine integer keeps its wrap-around written out. An exception and
-- a failed assert are values of a result type; `none` stands for undefined behaviour where no such
-- value exists. The loop over a script has the length of the script as fuel, since GetOp moves the
-- iterator; the walk of generateChain has two rounds more than the highest height, since heights
-- fall along the links.
--
-- The clusterer takes the disjoint sets of the submodule libs/dset, as parameter, and its numbers
-- are shown to be those of the connected components. A turn of a parser thread is what it does
-- between two looks at what the threads share, and a schedule is the list of the threads whose turn
-- it is; the number of steps is a parameter that addNewBlocks has as 8. The loop of segmentWork has
-- the number of indexes as fuel, since each segment has one at least.
--
-- RocksDB, google::dense_hash_map and the files that boost maps are parameters: records of their
-- operations with the laws that their documentation gives, which Tests.Stores and Tests.Storage fill
-- with association lists and lists of bytes.
--
-- Not modelled: the reading and writing of whole maps to files, the Python interface, the RPC form of the parser and the
-- printers, which are input and output; floating point (the sizes of the Bloom filter are
-- arguments, and so are the fees in percent); the scripts of inputs and address encodings.
pub mod Prelude
pub mod Script
pub mod Chain
pub mod Heuristics
pub mod Parser
pub mod Clustering
pub mod Storage
mod Tests
