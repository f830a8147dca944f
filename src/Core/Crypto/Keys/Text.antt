-- ===== src/Core/Crypto/Keys/Text.antt =====
-- The hexadecimal form of keys: `KeyPair::to_hex`, `KeyPair::from_hex` and the public keys.
use orf_veil.Prelude.{◌==◌, ==_iff, ◌≡◌, refl, if◌then◌else◌, length}
use orf_veil.Prelude.Bytes.{Bytes}
use orf_veil.Prelude.Trim.{trim, trim_plain}
use orf_veil.Prelude.Result.{ok, err, ok_or, ◌>>=◌}
use orf_veil.External.Random.{Rng}
use orf_veil.External.Crypto.{Crypto, CryptoLaws}
use orf_veil.External.Text.{Hex, HexLaws}
use orf_veil.Core.Error.{VeilError, VeilResult}
use orf_veil.Core.Crypto.Keys.{KeyPair, IsPair}

module _ (r : Rng) (c : Crypto r) (hex : Hex) where
  unfoldable pub to_hex : KeyPair r c → Bytes
  to_hex k = hex.encode (c.secret_to_bytes k.secret)

  unfoldable pub from_hex : Bytes → VeilResult (KeyPair r c)
  from_hex hex_str = do
    bytes ← ok_or (VeilError.invalid_key "secret key is not valid hex") (hex.decode (trim hex_str))
    if length bytes == 32
        then ok (record {
          secret = c.secret_from_bytes bytes;
          public = c.public_of (c.secret_from_bytes bytes);
        })
        else err (VeilError.invalid_key "secret key must decode to exactly 32 bytes")

  abbrev pub public_key_from_bytes : Bytes → c.PublicKey
  public_key_from_bytes bytes = c.public_from_bytes bytes

  unfoldable pub public_key_to_hex : c.PublicKey → Bytes
  public_key_to_hex public = hex.encode (c.public_as_bytes public)

  module _ (laws : CryptoLaws r c) (hex_laws : HexLaws hex) where
    -- A key pair that is written as hex is read back as the same pair, when its public key belongs to
    -- its secret.
    pub from_hex-to_hex : (k : KeyPair r c) → IsPair r c k → from_hex (to_hex k) ≡ ok k
    unfolding from_hex to_hex
    from_hex-to_hex k pair =
        let bytes = c.secret_to_bytes k.secret in
        let plain = hex_laws.encode-IsPlain bytes (laws.secret_to_bytes-IsByte k.secret) in
        rw
          (
            trim_plain (hex.encode bytes) plain,
            hex_laws.decode-encode bytes (laws.secret_to_bytes-IsByte k.secret),
            (==_iff (length bytes) 32).1 (laws.length-secret_to_bytes k.secret),
            laws.secret_from_bytes-to_bytes k.secret,
            ← pair,
          )
          refl
