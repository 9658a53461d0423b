-- ===== src/Indexer.antt =====
-- Building an index from a source, internal/indexer.
pub mod Version
pub mod Syntax
pub mod Lua
pub mod Toc
pub mod Generated
pub mod Api
pub mod Source
pub mod Panics
pub mod Sourced
