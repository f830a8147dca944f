-- ===== src/Core.antt =====
-- crates/veil-core: cells, fragmentation, reassembly and the cryptography of cells.
pub mod Error
pub mod Cell
pub mod Fragmentation
pub mod Reassembly
pub mod Crypto
