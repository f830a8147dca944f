-- ===== src/Relay/Forwarding/Layer.antt =====
-- Building and peeling onion layers.
use orf_veil.Prelude.{
  ◌+◌, ◌≤◌, ◌≡◌, ap, sym, ◌∙◌, arith, some, ◌++◌, length, length-append, All, All-append, take,
  drop, take-append_length, drop-append_length, drop-drop, le→ltb,
}
use orf_veil.Prelude.Bytes.{Bytes, IsByte}
use orf_veil.Prelude.Result.{ok}
use orf_veil.External.Random.{Rng, RngLaws}
use orf_veil.External.Crypto.{Crypto, CryptoLaws, max_plaintext}
use orf_veil.Core.Crypto.Keys
use orf_veil.Core.Crypto.Keys.{KeyPair}
use orf_veil.Relay.Forwarding.{
  OnionPayload, encode_payload, onion_key_context, ephemeral_key_size, nonce_size,
  derive_key_from_bytes, seal_layer, build_onion_layer, peel_onion_layer,
}
use orf_veil.Relay.Forwarding.Payload.{
  IsEncodable, encode_payload-IsByte, decode_payload-encode_payload,
}

module _ (r : Rng) (c : Crypto r) (rng : RngLaws r) (laws : CryptoLaws r c) where
  -- The parts of a sealed frame, at the offsets that `peel_onion_layer` reads.
  module _ (key_bytes nonce sealed : Bytes) (k : length key_bytes ≡ 32)
      (n : length nonce ≡ 12) where
    abbrev frame : Bytes
    frame = key_bytes ++ (nonce ++ sealed)

    frame_key : take ephemeral_key_size frame ≡ key_bytes
    frame_key = take-append_length 32 key_bytes (nonce ++ sealed) k

    frame_nonce : take nonce_size (drop ephemeral_key_size frame) ≡ nonce
    frame_nonce =
        ap (take 12) (drop-append_length 32 key_bytes (nonce ++ sealed) k)
        ∙ take-append_length 12 nonce sealed n

    frame_sealed : drop (ephemeral_key_size + nonce_size) frame ≡ sealed
    frame_sealed =
        sym (drop-drop 32 12 frame)
        ∙ ap (drop 12) (drop-append_length 32 key_bytes (nonce ++ sealed) k)
        ∙ drop-append_length 12 nonce sealed n

    length-frame : length frame ≡ 44 + length sealed
    length-frame =
        omega (arith, length-append key_bytes (nonce ++ sealed), length-append nonce sealed)

  module _ (keypair : KeyPair r c) (pair : Keys.IsPair r c keypair) where
    -- The relay derives the key of the sender of the layer.
    same_secret :
        (ephemeral : c.StaticSecret)
        → Keys.diffie_hellman r c keypair (c.public_of ephemeral)
          ≡ c.diffie_hellman ephemeral keypair.public
    unfolding Keys.diffie_hellman
    same_secret ephemeral = rw pair (laws.diffie_hellman_comm keypair.secret ephemeral)

    peel_sealed :
        (ephemeral : c.StaticSecret) (key nonce sealed : Bytes) (p : OnionPayload)
        → length nonce ≡ 12
        → IsEncodable p
        → c.hkdf_expand (c.diffie_hellman ephemeral keypair.public) onion_key_context ≡ some key
        → c.encrypt key nonce (encode_payload p) ≡ some sealed
        → peel_onion_layer r c keypair
            (c.public_as_bytes (c.public_of ephemeral) ++ (nonce ++ sealed))
          ≡ ok p
    unfolding peel_onion_layer Keys.derive_key
    peel_sealed ephemeral key nonce sealed p n v hk he =
        let pub_bytes = c.public_as_bytes (c.public_of ephemeral) in
        let k = laws.length-public_as_bytes (c.public_of ephemeral) in
        let fits = laws.length-encrypt key nonce (encode_payload p) sealed he in
        rw
          (
            le→ltb (length (pub_bytes ++ (nonce ++ sealed))) 60
                (omega (arith, length-frame pub_bytes nonce sealed k n)),
            frame_key pub_bytes nonce sealed k n,
            frame_nonce pub_bytes nonce sealed k n,
            frame_sealed pub_bytes nonce sealed k n,
            laws.public_from_bytes-as_bytes (c.public_of ephemeral),
            same_secret ephemeral,
            hk,
            laws.decrypt-encrypt key nonce (encode_payload p) sealed he,
          )
          (decode_payload-encode_payload p v)

    build_sealed :
        (p : OnionPayload) (s : r.State) (key sealed : Bytes)
        → c.hkdf_expand (c.diffie_hellman (c.random_secret s).0 keypair.public) onion_key_context
          ≡ some key
        → c.encrypt key (r.fill_bytes nonce_size (c.random_secret s).1).0 (encode_payload p)
          ≡ some sealed
        → (build_onion_layer r c keypair.public p s).0
          ≡ ok (
              c.public_as_bytes (c.public_of (c.random_secret s).0)
              ++ ((r.fill_bytes nonce_size (c.random_secret s).1).0 ++ sealed))
    unfolding build_onion_layer seal_layer derive_key_from_bytes
    build_sealed p s key sealed hk he = ground arith

    -- A layer that is built for a relay peels, with the key pair of that relay, to its payload; it is
    -- longer than the encoded payload by the key, the nonce and the tag.
    pub peel_onion_layer-build_onion_layer :
        (p : OnionPayload) (s : r.State)
        → IsEncodable p
        → length (encode_payload p) ≤ max_plaintext
        → (frame : Bytes) × ((build_onion_layer r c (Keys.public_key r c keypair) p s).0 ≡ ok frame)
          × (peel_onion_layer r c keypair frame ≡ ok p)
          × (length frame ≡ length (encode_payload p) + 60)
          × All IsByte frame
    peel_onion_layer-build_onion_layer p s v fits =
        let ephemeral = (c.random_secret s).0 in
        let pub_bytes = c.public_as_bytes (c.public_of ephemeral) in
        let nonce = (r.fill_bytes nonce_size (c.random_secret s).1).0 in
        let n = rng.length-fill_bytes nonce_size (c.random_secret s).1 in
        let (key, hk) =
          laws.hkdf_expand_total (c.diffie_hellman ephemeral keypair.public) onion_key_context in
        let (sealed, he) =
          laws.encrypt_total key nonce (encode_payload p) (encode_payload-IsByte p v) fits in
        (
          pub_bytes ++ (nonce ++ sealed),
          build_sealed p s key sealed hk he,
          peel_sealed ephemeral key nonce sealed p n v hk he,
          omega (
            arith,
            length-frame pub_bytes nonce sealed
                (laws.length-public_as_bytes (c.public_of ephemeral)) n,
            laws.length-encrypt key nonce (encode_payload p) sealed he,
          ),
          All-append IsByte pub_bytes (nonce ++ sealed)
              (laws.public_as_bytes-IsByte (c.public_of ephemeral))
              (All-append IsByte nonce sealed
                (rng.fill_bytes-IsByte nonce_size (c.random_secret s).1)
                (laws.encrypt-IsByte key nonce (encode_payload p) sealed he)),
        )
