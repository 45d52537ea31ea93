-- ===== src/Rfqdb.antt =====
-- The package rfqdb: its interfaces, and the in-memory implementation.
pub mod Interfaces
pub mod Memorydb
