-- ===== src/Crypto.antt =====
-- crypto/ocax: keys and signatures.
pub mod Signatures
