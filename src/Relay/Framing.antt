-- ===== src/Relay/Framing.antt =====
-- Length-prefixed frames on a stream: `write_frame` and `read_frame` of
-- crates/veil-relay/src/forwarding.rs.
pub mod Pipe
use orf_veil.Prelude.{ℕ, ◌++◌, length}
use orf_veil.Prelude.Bytes.{Bytes, byte_at, as_u32, u32_to_be, u32_from_be}
use orf_veil.Prelude.Result.{Result, ok, and_then}
use orf_veil.External.Stream.{Stream}

-- `u32::from_be_bytes` on a buffer of four bytes.
unfoldable pub u32_of : Bytes → ℕ
u32_of buf = u32_from_be (byte_at buf 0) (byte_at buf 1) (byte_at buf 2) (byte_at buf 3)

module _ (t : Stream) where
  unfoldable pub write_frame : Bytes → t.State → Result t.IoError (Unit {0}) × t.State
  write_frame body s =
      and_then (t.write_all (u32_to_be (as_u32 (length body))) s) (λ _ s'. t.write_all body s')

  unfoldable pub read_frame : t.State → Result t.IoError Bytes × t.State
  read_frame s =
      and_then (t.read_exact 4 s)
        (λ len_buf s'. and_then (t.read_exact (u32_of len_buf) s') (λ buf s''. (ok buf, s'')))
