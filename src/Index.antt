-- ===== src/Index.antt =====
-- The index of command documentation, crates/termlm-indexer: its files and the lookups in them.
pub mod Bytes
pub mod Utf8
pub mod Names
pub mod Records
pub mod Entries
pub mod Levenshtein
pub mod Lookup
pub mod Found
