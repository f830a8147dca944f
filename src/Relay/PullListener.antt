-- ===== src/Relay/PullListener.antt =====
-- crates/veil-relay/src/pull_listener.rs: the requests on the mailbox port. A connection is a stream to
-- the server and one to the client; `pull` and `describe` are the request, before the relay handles
-- it, and the reading of the response. Binding, accepting and connecting are not modelled.
pub mod Requests
pub mod Exchange
pub mod Serving
use orf_veil.Prelude.{ℕ, zero, suc, List, [], ◌∷◌, ◌++◌, if◌then◌else◌, ◌==◌, length, true, false}
use orf_veil.Prelude.Bytes.{Bytes, byte_at, as_u16, as_u32, u16_to_be, u16_from_be, u32_to_be}
use orf_veil.Prelude.Result.{Result, ok, err, and_then, from_err}
use orf_veil.Prelude.Utf8.{is_utf8}
use orf_veil.External.Random.{Rng}
use orf_veil.External.Crypto.{Crypto}
use orf_veil.External.Stream.{Stream}
use orf_veil.Relay.Framing.{u32_of, write_frame, read_frame}
use orf_veil.Relay.Mailbox.{Mailbox, drain}

abbrev pub pull_request_byte : ℕ
pull_request_byte = 1

abbrev pub describe_request_byte : ℕ
describe_request_byte = 2

pub record RelayIdentity (r : Rng) (c : Crypto r) : Type 0 where
  pub id : Bytes
  pub public_key : c.PublicKey
  pub main_addr : Bytes

-- An error of the stream, or `ErrorKind::InvalidData`.
pub data ReadError (t : Stream) : Type 0 where
  stream_error : t.IoError → ReadError t
  invalid_data : ReadError t

-- `u16::from_be_bytes` on a buffer of two bytes.
unfoldable pub u16_of : Bytes → ℕ
u16_of buf = u16_from_be (byte_at buf 0) (byte_at buf 1)

module _ (t : Stream) where
  -- The loop of `handle_request` over the drained cells.
  unfoldable pub write_frames : List Bytes → t.State → Result t.IoError (Unit {0}) × t.State
  write_frames [] s = (ok tt, s)
  write_frames (cell ∷ cells) s = and_then (write_frame t cell s) (λ _ s'. write_frames cells s')

  -- The loop of `pull` over `0..count`.
  unfoldable pub read_frames : ℕ → t.State → Result t.IoError (List Bytes) × t.State
  read_frames zero s = (ok [], s)
  read_frames (suc n) s =
      and_then (read_frame t s)
        (λ cell s'. and_then (read_frames n s') (λ cells s''. (ok (cell ∷ cells), s'')))

  unfoldable pub write_len_prefixed : Bytes → t.State → Result t.IoError (Unit {0}) × t.State
  write_len_prefixed bytes s =
      and_then (t.write_all (u16_to_be (as_u16 (length bytes))) s) (λ _ s'. t.write_all bytes s')

  unfoldable pub check_utf8 : Bytes → t.State → Result (ReadError t) Bytes × t.State
  check_utf8 buf s = if is_utf8 buf then (ok buf, s) else (err invalid_data, s)

  unfoldable pub read_len_prefixed_string : t.State → Result (ReadError t) Bytes × t.State
  unfolding check_utf8
  read_len_prefixed_string s =
      and_then (from_err (λ e. stream_error e) (t.read_exact 2 s)) (λ len_buf s'.
        and_then (from_err (λ e. stream_error e) (t.read_exact (u16_of len_buf) s'))
          (λ buf s''. check_utf8 buf s''))

  -- The `PULL` case of `handle_request`: the mailbox is drained before anything is written.
  unfoldable pub respond_pull :
      Mailbox → t.State → (Result t.IoError (Unit {0}) × t.State) × Mailbox
  respond_pull mailbox s =
      let (cells, mailbox') = drain mailbox in
      (
        and_then (t.write_all (u32_to_be (as_u32 (length cells))) s)
            (λ _ s'. write_frames cells s'),
        mailbox',
      )

  -- The request of `pull`.
  unfoldable pub pull_request : t.State → Result t.IoError (Unit {0}) × t.State
  pull_request s = t.write_all (pull_request_byte ∷ []) s

  -- The request of `describe`.
  unfoldable pub describe_request : t.State → Result t.IoError (Unit {0}) × t.State
  describe_request s = t.write_all (describe_request_byte ∷ []) s

  -- `pull`, behind the request.
  unfoldable pub pull_response : t.State → Result t.IoError (List Bytes) × t.State
  pull_response s = and_then (t.read_exact 4 s) (λ count_buf s'. read_frames (u32_of count_buf) s')

module _ (r : Rng) (c : Crypto r) (t : Stream) where
  -- The `DESCRIBE` case of `handle_request`.
  unfoldable pub respond_describe :
      RelayIdentity r c → t.State → Result t.IoError (Unit {0}) × t.State
  respond_describe identity s = and_then (write_len_prefixed t identity.id s) (λ _ s1.
      and_then (t.write_all (c.public_as_bytes identity.public_key) s1)
        (λ _ s2. write_len_prefixed t identity.main_addr s2))

  -- `describe`, behind the request.
  unfoldable pub describe_response : t.State → Result (ReadError t) (RelayIdentity r c) × t.State
  describe_response s = and_then (read_len_prefixed_string t s) (λ id s1.
      and_then (from_err (λ e. stream_error e) (t.read_exact 32 s1)) (λ pub_bytes s2.
        and_then (read_len_prefixed_string t s2) (λ main_addr s3. (
          ok (record {
            id = id;
            public_key = c.public_from_bytes pub_bytes;
            main_addr = main_addr;
          }),
          s3,
        ))))

  -- The two directions of a connection, and the relay's mailbox.
  pub record Served : Type 0 where
    pub to_server : t.State
    pub to_client : t.State
    pub mailbox : Mailbox

  -- The match of `handle_request` on the request byte.
  unfoldable pub dispatch : RelayIdentity r c → ℕ → Served → Result t.IoError (Unit {0}) × Served
  dispatch identity request w =
      if request == pull_request_byte
      then (let ((out, s'), mailbox') = respond_pull t w.mailbox w.to_client in
          (out, record w { to_client = s'; mailbox = mailbox' }))
      else if request == describe_request_byte
      then (let (out, s') = respond_describe identity w.to_client in
          (out, record w { to_client = s' }))
      else (ok tt, w)

  -- What follows the reading of the request.
  unfoldable pub handle_read :
      RelayIdentity r c
      → Result t.IoError Bytes × t.State
      → Served
      → Result t.IoError (Unit {0}) × Served
  unfolding dispatch
  handle_read identity (ok request, s') w =
      dispatch identity (byte_at request 0) (record w { to_server = s' })
  handle_read identity (err e, s') w = (err e, record w { to_server = s' })

  -- `handle_request`
  unfoldable pub handle_request : RelayIdentity r c → Served → Result t.IoError (Unit {0}) × Served
  unfolding handle_read
  handle_request identity w = handle_read identity (t.read_exact 1 w.to_server) w
