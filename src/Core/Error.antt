-- ===== src/Core/Error.antt =====
-- crates/veil-core/src/error.rs
use orf_veil.Prelude.{ℕ}
use orf_veil.Prelude.Result.{Result}
use Prim.Native.String.{String}

pub data VeilError : Type 0 where
  payload_too_large : ℕ → ℕ → VeilError
  invalid_sequence : ℕ → ℕ → VeilError
  unsupported_version : ℕ → VeilError
  invalid_cell_type : ℕ → VeilError
  message_too_large : ℕ → ℕ → VeilError
  incomplete_message : ℕ → ℕ → VeilError
  mismatched_message_id : VeilError
  encryption_failed : VeilError
  decryption_failed : VeilError
  invalid_key : String → VeilError

abbrev pub VeilResult {ℓ} : Type ℓ → Type ℓ
VeilResult A = Result VeilError A
