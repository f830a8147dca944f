-- ===== src/External/Toml.antt =====
-- The crate `toml`: a document of a type is read by `from_str`.
use orf_veil.Prelude.Bytes.{Bytes}
use orf_veil.Prelude.Result.{Result}

pub record Toml (A : Type 0) : Type 1 where
  pub Error : Type 0
  pub from_str : Bytes → Result Error A
