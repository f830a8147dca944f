-- ===== src/Core/Crypto.antt =====
-- crates/veil-core/src/crypto: key pairs and the encryption of cells.
pub mod Keys
pub mod Encryption
