-- ===== src/Relay/Forwarding.antt =====
-- crates/veil-relay/src/forwarding.rs: the onion layers. A `String` is the list of its UTF-8 bytes.
pub mod Payload
pub mod Layer
use orf_veil.Prelude.{ℕ, ◌+◌, List, [], ◌∷◌, ◌++◌, ltb, ◌==◌, if◌then◌else◌, length, take, drop}
use orf_veil.Prelude.Bytes.{Bytes, as_u16, u16_to_be, u16_from_be}
use orf_veil.Prelude.Utf8.{is_utf8}
use orf_veil.Prelude.Result.{Result, ok, err, ok_or, map_err, ◌>>=◌}
use orf_veil.External.Random.{Rng}
use orf_veil.External.Crypto.{Crypto}
use orf_veil.Core.Error.{VeilError}
use orf_veil.Core.Crypto.Keys
use orf_veil.Core.Crypto.Keys.{KeyPair}

abbrev pub ephemeral_key_size : ℕ
ephemeral_key_size = 32

abbrev pub nonce_size : ℕ
nonce_size = 12

abbrev pub tag_size : ℕ
tag_size = 16

-- The bytes of "veil-onion-layer-v1".
abbrev pub onion_key_context : Bytes
onion_key_context =
    0x76 ∷ 0x65 ∷ 0x69 ∷ 0x6c ∷ 0x2d ∷ 0x6f ∷ 0x6e ∷ 0x69 ∷ 0x6f ∷ 0x6e ∷ 0x2d ∷ 0x6c ∷ 0x61 ∷ 0x79
    ∷ 0x65 ∷ 0x72 ∷ 0x2d ∷ 0x76 ∷ 0x31 ∷ []

pub data OnionError : Type 0 where
  frame_too_short decryption_failed malformed key_derivation : OnionError

pub data OnionPayload : Type 0 where
  forward : Bytes → Bytes → OnionPayload
  deliver : Bytes → OnionPayload

unfoldable pub encode_payload : OnionPayload → Bytes
encode_payload (forward next_hop body) =
    0 ∷ (u16_to_be (as_u16 (length next_hop)) ++ (next_hop ++ body))
encode_payload (deliver body) = 1 ∷ body

-- The `Forward` case of `decode_payload`, behind the flag.
unfoldable pub decode_forward : Bytes → Result OnionError OnionPayload
decode_forward (a ∷ b ∷ rest) =
    let hop_len = u16_from_be a b in
    if ltb (length rest) hop_len
    then err malformed
    else if is_utf8 (take hop_len rest)
    then ok (forward (take hop_len rest) (drop hop_len rest))
    else err malformed
decode_forward _ = err malformed

unfoldable pub decode_payload : Bytes → Result OnionError OnionPayload
decode_payload [] = err malformed
decode_payload (flag ∷ rest) =
    if flag == 0
    then decode_forward rest
    else if flag == 1
    then ok (deliver rest)
    else err malformed

module _ (r : Rng) (c : Crypto r) where
  unfoldable pub derive_key_from_bytes : Bytes → Result OnionError Bytes
  derive_key_from_bytes shared = ok_or key_derivation (c.hkdf_expand shared onion_key_context)

  -- What follows the derivation of the key: the nonce is drawn only now.
  unfoldable pub seal_layer :
      c.StaticSecret → Bytes → Bytes → r.State → Result OnionError Bytes × r.State
  seal_layer ephemeral key plaintext s =
      let (nonce_bytes, s') = r.fill_bytes nonce_size s in
      (
        (do
          ciphertext ← ok_or key_derivation (c.encrypt key nonce_bytes plaintext)
          ok (c.public_as_bytes (c.public_of ephemeral) ++ (nonce_bytes ++ ciphertext))),
        s',
      )

  unfoldable pub build_onion_layer :
      c.PublicKey → OnionPayload → r.State → Result OnionError Bytes × r.State
  build_onion_layer relay_public payload s =
      let (ephemeral, s') = c.random_secret s in
      elim (derive_key_from_bytes (c.diffie_hellman ephemeral relay_public)) [
        | err e ↦ (err e, s')
        | ok key ↦ seal_layer ephemeral key (encode_payload payload) s'
      ]

  unfoldable pub peel_onion_layer : KeyPair r c → Bytes → Result OnionError OnionPayload
  peel_onion_layer keypair frame =
      if ltb (length frame) (ephemeral_key_size + nonce_size + tag_size)
      then err frame_too_short
      else do
        let ephemeral_public = c.public_from_bytes (take ephemeral_key_size frame)
        let shared = Keys.diffie_hellman r c keypair ephemeral_public
        key ← map_err (λ _. key_derivation) (Keys.derive_key r c shared onion_key_context)
        plaintext ← ok_or decryption_failed (
            c.decrypt key (take nonce_size (drop ephemeral_key_size frame))
              (drop (ephemeral_key_size + nonce_size) frame))
        decode_payload plaintext
