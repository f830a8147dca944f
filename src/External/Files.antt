-- ===== src/External/Files.antt =====
-- The file system: `std::fs::read_to_string` and `std::fs::write`, on a state that a write changes.
use orf_veil.Prelude.{◌≡◌}
use orf_veil.Prelude.Bytes.{Bytes}
use orf_veil.Prelude.Result.{Result, ok}

pub record Files : Type 1 where
  pub State : Type 0
  pub IoError : Type 0
  pub read_to_string : Bytes → State → Result IoError Bytes
  pub write : Bytes → Bytes → State → Result IoError (Unit {0}) × State

-- What is written without an error at a path is read from it.
pub record FilesLaws (f : Files) : Type 0 where
  pub read_to_string-write :
      (path text : Bytes) (s s' : f.State)
      → f.write path text s ≡ (ok tt, s')
      → f.read_to_string path s' ≡ ok text
