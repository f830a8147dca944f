-- ===== src/Sdk/Session.antt =====
-- crates/veil-sdk/src/session.rs: the key that a sender shares with one recipient.
use orf_veil.Prelude.{◌≡◌, refl, [], ◌∷◌}
use orf_veil.Prelude.Bytes.{Bytes}
use orf_veil.Prelude.Result.{ok, ◌>>=◌}
use orf_veil.External.Random.{Rng}
use orf_veil.External.Crypto.{Crypto, CryptoLaws}
use orf_veil.Core.Error.{VeilResult}
use orf_veil.Core.Crypto.Keys
use orf_veil.Core.Crypto.Keys.{KeyPair, diffie_hellman_agree, generate-IsPair}

-- The bytes of "veil-sdk-session-v1".
abbrev pub session_context : Bytes
session_context =
    0x76 ∷ 0x65 ∷ 0x69 ∷ 0x6c ∷ 0x2d ∷ 0x73 ∷ 0x64 ∷ 0x6b ∷ 0x2d ∷ 0x73 ∷ 0x65 ∷ 0x73 ∷ 0x73 ∷ 0x69
    ∷ 0x6f ∷ 0x6e ∷ 0x2d ∷ 0x76 ∷ 0x31 ∷ []

pub record Session (r : Rng) (c : Crypto r) : Type 0 where
  pub keypair : KeyPair r c
  pub cell_key : Bytes

module _ (r : Rng) (c : Crypto r) where
  -- `Session::establish`
  unfoldable pub establish : c.PublicKey → r.State → VeilResult (Session r c) × r.State
  establish recipient_public s =
      let (keypair, s') = Keys.generate r c s in
      let shared = Keys.diffie_hellman r c keypair recipient_public in
      (
        (do
          cell_key ← Keys.derive_key r c shared session_context
          ok (record { keypair = keypair; cell_key = cell_key })),
        s',
      )

  -- `Session::public_key`
  abbrev pub session_public_key : Session r c → c.PublicKey
  session_public_key session = Keys.public_key r c session.keypair

  -- The recipient derives the key of the session from the public key of the sender.
  abbrev pub IsSharedWith : KeyPair r c → Session r c → Type 0
  IsSharedWith identity session =
      Keys.derive_key r c (Keys.diffie_hellman r c identity (session_public_key session))
        session_context
      ≡ ok session.cell_key

  -- A session for the public key of a recipient is always established, with a fresh pair, and the
  -- recipient derives the same key from its public key.
  pub establish-IsSharedWith :
      CryptoLaws r c
      → (identity : KeyPair r c) (s : r.State) → Keys.IsPair r c identity
      → (session : Session r c) × (establish (Keys.public_key r c identity) s
          ≡ (ok session, (Keys.generate r c s).1))
        × (session.keypair ≡ (Keys.generate r c s).0)
        × IsSharedWith identity session
  unfolding establish Keys.derive_key
  establish-IsSharedWith laws identity s pair =
      let fresh = (Keys.generate r c s).0 in
      let (key, e) =
        laws.hkdf_expand_total (Keys.diffie_hellman r c fresh (Keys.public_key r c identity))
          session_context in
      let agree = diffie_hellman_agree r c laws identity fresh pair (generate-IsPair r c s) in
      (record { keypair = fresh; cell_key = key }, rw e refl, refl, rw (agree, e) refl)
