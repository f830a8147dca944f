-- ===== src/Core/Crypto/Keys.antt =====
-- crates/veil-core/src/crypto/keys.rs: key pairs, the exchange and key derivation. The wiping of
-- secrets on drop has no effect on values and is not modelled.
pub mod Text
use orf_veil.Prelude.{◌≡◌, refl}
use orf_veil.Prelude.Bytes.{Bytes}
use orf_veil.Prelude.Result.{ok_or}
use orf_veil.External.Random.{Rng}
use orf_veil.External.Crypto.{Crypto, CryptoLaws}
use orf_veil.Core.Error.{VeilError, VeilResult}

pub record KeyPair (r : Rng) (c : Crypto r) : Type 0 where
  pub secret : c.StaticSecret
  pub public : c.PublicKey

-- The 32 bytes of the exchange.
abbrev pub SharedSecret : Type 0
SharedSecret = Bytes

module _ (r : Rng) (c : Crypto r) where
  -- `KeyPair::generate`
  unfoldable pub generate : r.State → KeyPair r c × r.State
  generate s =
      let (secret, s') = c.random_secret s in
      (record { secret = secret; public = c.public_of secret }, s')

  -- `KeyPair::public_key`
  abbrev pub public_key : KeyPair r c → c.PublicKey
  public_key k = k.public

  -- `KeyPair::diffie_hellman`
  unfoldable pub diffie_hellman : KeyPair r c → c.PublicKey → SharedSecret
  diffie_hellman k peer_public = c.diffie_hellman k.secret peer_public

  -- `SharedSecret::derive_key`
  unfoldable pub derive_key : SharedSecret → Bytes → VeilResult Bytes
  derive_key shared context =
      ok_or (VeilError.invalid_key "HKDF expand failed: invalid output length")
        (c.hkdf_expand shared context)

  -- The public key of the pair belongs to its secret.
  abbrev pub IsPair : KeyPair r c → Type 0
  IsPair k = k.public ≡ c.public_of k.secret

  pub generate-IsPair : (s : r.State) → IsPair (generate s).0
  unfolding generate
  generate-IsPair s = refl

  -- Two pairs, each with the public key of its secret, hold the same secret after an exchange.
  pub diffie_hellman_agree :
      CryptoLaws r c
      → (a b : KeyPair r c) → IsPair a
      → IsPair b
      → diffie_hellman a (public_key b) ≡ diffie_hellman b (public_key a)
  unfolding diffie_hellman
  diffie_hellman_agree laws a b ha hb = rw (ha, hb) (laws.diffie_hellman_comm a.secret b.secret)
