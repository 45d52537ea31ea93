-- ===== src/Common.antt =====
-- The package common: the generic list.
pub mod Lists
pub mod Bytes
pub mod Types
