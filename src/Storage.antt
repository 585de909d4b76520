-- ===== src/Storage.antt =====
-- The files of the analysis data: src/blocksci/util/file_mapper.hpp and file_mapper.cpp, and
-- src/parser/file_writer.hpp.
pub mod Overwrite
pub mod Mapper
pub mod Records
pub mod Indexed
pub mod Writer
