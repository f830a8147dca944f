-- ===== src/Sdk/Envelope.antt =====
-- crates/veil-sdk/src/envelope.rs: an encrypted cell behind the public key of its sender.
use orf_veil.Prelude.{
  ℕ, ◌+◌, Option, some, Bool-cases, inl, inr, false, length-take, length-drop, ◌≡◌, ◌≢◌, refl,
  arith, ◌++◌, length, length-append, take, drop, take-append_length, drop-append_length,
  if◌then◌else◌, ◌==◌, ==_iff,
}
use orf_veil.Prelude.Bytes.{Bytes}
use orf_veil.Prelude.Result.{Result, ok, err}
use orf_veil.Prelude.Arrays.{
  copy_from_slice, slice_to, slice_from, copy_from_slice_fits, slice_to_fits, slice_from_fits,
}
use orf_veil.External.Random.{Rng}
use orf_veil.External.Crypto.{Crypto, CryptoLaws}
use orf_veil.Core.Crypto.Encryption.{encrypted_cell_size}
use mathlib.Core.Option

abbrev pub envelope_size : ℕ
envelope_size = 32 + encrypted_cell_size

pub data EnvelopeError : Type 0 where
  wrong_length : ℕ → ℕ → EnvelopeError

module _ (r : Rng) (c : Crypto r) where
  unfoldable pub wrap : c.PublicKey → Bytes → Bytes
  wrap sender_public encrypted_cell = c.public_as_bytes sender_public ++ encrypted_cell

  -- The copies of the two parts of an envelope.
  unfoldable pub split_envelope : Bytes → Option (c.PublicKey × Bytes)
  split_envelope envelope =
      Option.bind (Option.bind (slice_to 32 envelope) (copy_from_slice 32)) (λ pub_bytes.
        Option.map (λ cell_bytes. (c.public_from_bytes pub_bytes, cell_bytes))
          (Option.bind (slice_from 32 envelope) (copy_from_slice encrypted_cell_size)))

  -- The errors carry the expected and the actual length; `none` is the panic of a slice or a copy.
  unfoldable pub unwrap : Bytes → Option (Result EnvelopeError (c.PublicKey × Bytes))
  unfolding split_envelope
  unwrap envelope =
      if length envelope == envelope_size
      then Option.map (λ parts. ok parts) (split_envelope envelope)
      else some (err (wrong_length envelope_size (length envelope)))

  -- From `envelope_size` bytes both parts are copied.
  split_envelope_fits :
      (envelope : Bytes)
      → length envelope ≡ envelope_size
      → split_envelope envelope ≡ some (c.public_from_bytes (take 32 envelope), drop 32 envelope)
  unfolding split_envelope Option.bind
  split_envelope_fits envelope size =
      rw
        (
          slice_to_fits 32 envelope (omega (arith, size)),
          slice_from_fits 32 envelope (omega (arith, size)),
          copy_from_slice_fits 32 (take 32 envelope) (omega (arith, size, length-take 32 envelope)),
          copy_from_slice_fits encrypted_cell_size (drop 32 envelope)
              (omega (arith, size, length-drop 32 envelope)),
        )
        refl

  -- The length decides: no input makes `unwrap` panic.
  pub unwrap_lem :
      (envelope : Bytes)
      → unwrap envelope
        ≡ some (
            if length envelope == envelope_size
            then ok (c.public_from_bytes (take 32 envelope), drop 32 envelope)
            else err (wrong_length envelope_size (length envelope)))
  unfolding unwrap
  unwrap_lem envelope = elim (Bool-cases (length envelope == 572)) [
    | inl e ↦
        let size : length envelope ≡ envelope_size = ground (arith, e) in
        rw (e, split_envelope_fits envelope size) refl
    | inr e ↦ rw e refl
  ]

  -- An envelope around an encrypted cell has exactly `envelope_size` bytes, and unwraps to the key of
  -- the sender and the cell.
  pub unwrap-wrap :
      CryptoLaws r c
      → (sender_public : c.PublicKey) (encrypted_cell : Bytes)
      → length encrypted_cell ≡ encrypted_cell_size
      → (length (wrap sender_public encrypted_cell) ≡ envelope_size)
        × (unwrap (wrap sender_public encrypted_cell) ≡ some (ok (sender_public, encrypted_cell)))
  unfolding wrap
  unwrap-wrap laws p cell h =
      let key = c.public_as_bytes p in
      let n = laws.length-public_as_bytes p in
      let size : length (key ++ cell) ≡ 572 = omega (arith, length-append key cell) in
      (
        size,
        rw
            (
              unwrap_lem (key ++ cell),
              (==_iff (length (key ++ cell)) 572).1 size,
              take-append_length 32 key cell n,
              drop-append_length 32 key cell n,
              laws.public_from_bytes-as_bytes p,
            )
            refl,
      )

  -- An input of any other length is refused.
  pub unwrap_err :
      (envelope : Bytes)
      → length envelope ≢ envelope_size
      → unwrap envelope ≡ some (err (wrong_length envelope_size (length envelope)))
  unwrap_err envelope h =
      let other : (length envelope == 572) ≡ false = ground (arith, h) in
      rw (unwrap_lem envelope, other) refl
