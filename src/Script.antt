-- ===== src/Script.antt =====
-- Bitcoin scripts: src/blocksci/scripts/bitcoin_script.hpp, bitcoin_script.cpp, script_view.hpp and
-- script_view.cpp. A script is its list of bytes, and an iterator into it is the list of bytes from
-- there to the end. CScript and CScriptView have the same functions with the same bodies.
pub mod Opcode
pub mod GetOp
pub mod Push
pub mod Num
pub mod Walk
pub mod Inspect
pub mod Witness
pub mod Assembly
