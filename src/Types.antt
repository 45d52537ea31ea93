-- ===== src/Types.antt =====
-- The package core/types: transactions, blocks and their encodings.
pub mod Data
pub mod Items
pub mod Decode
pub mod Block
pub mod Signing
pub mod Validation
