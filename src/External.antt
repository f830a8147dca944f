-- ===== src/External.antt =====
-- What the program takes from third-party crates, as interfaces: the operations that the code calls,
-- and records of the laws that their documentation gives.
pub mod Random
pub mod Crypto
pub mod Stream
pub mod Text
pub mod Files
pub mod Toml
