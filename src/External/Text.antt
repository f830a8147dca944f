-- ===== src/External/Text.antt =====
-- The crates `hex` and `serde_json`: `none` is the error of `hex::decode`; a JSON document of a type is
-- written by `to_string_pretty`, which does not fail on the types it is used for, and read by
-- `from_str`.
use orf_veil.Prelude.{Option, some, ◌≡◌, All}
use orf_veil.Prelude.Trim.{IsPlain}
use orf_veil.Prelude.Bytes.{Bytes, IsByte}
use orf_veil.Prelude.Result.{Result, ok}

pub record Hex : Type 0 where
  pub encode : Bytes → Bytes
  pub decode : Bytes → Option Bytes

-- The digits of a byte string are visible ASCII characters, and are decoded to it.
pub record HexLaws (hex : Hex) : Type 0 where
  pub encode-IsPlain : (b : Bytes) → All IsByte b → All IsPlain (hex.encode b)
  pub decode-encode : (b : Bytes) → All IsByte b → hex.decode (hex.encode b) ≡ some b

pub record Json (A : Type 0) : Type 1 where
  pub Error : Type 0
  pub from_str : Bytes → Result Error A
  pub to_string_pretty : A → Bytes

-- A document that is written is read back.
pub record JsonLaws (A : Type 0) (json : Json A) : Type 0 where
  pub from_str-to_string_pretty : (a : A) → json.from_str (json.to_string_pretty a) ≡ ok a
