-- ===== src/Rawdb.antt =====
-- The package core/rawdb: tables, keys and the block accessors.
pub mod Table
pub mod Blocks
