-- ===== src/Relay/Config/Keygen.antt =====
-- crates/veil-relay/src/bin/veil-relay-keygen.rs: a new identity, as it is printed. The fixed texts
-- around the two values are left out.
use orf_veil.Prelude.{==_iff, ◌≡◌, refl, some, length}
use orf_veil.Prelude.Bytes.{Bytes}
use orf_veil.Prelude.Result.{ok}
use orf_veil.External.Random.{Rng}
use orf_veil.External.Crypto.{Crypto, CryptoLaws}
use orf_veil.External.Text.{Hex, HexLaws, Json}
use orf_veil.External.Files.{Files}
use orf_veil.Core.Crypto.Keys
use orf_veil.Core.Crypto.Keys.{KeyPair}
use orf_veil.Core.Crypto.Keys.Text.{to_hex, public_key_to_hex}
use orf_veil.Relay.Config.{RelayConfig, relay_keypair, relay_identity, relay_keypair-to_hex}
use orf_veil.Routing.TopologyFile.{RelayEntry, TopologyFile, entry_key}

-- The two values that are printed.
pub record Printed : Type 0 where
  pub static_secret_hex : Bytes
  pub public_key : Bytes

module _ (r : Rng) (c : Crypto r) (hex : Hex) where
  unfoldable pub keygen : r.State → Printed × r.State
  keygen s =
      let (keypair, s') = Keys.generate r c s in
      (
        record {
          static_secret_hex = to_hex r c hex keypair;
          public_key = public_key_to_hex r c hex (Keys.public_key r c keypair);
        },
        s',
      )

  module _ (laws : CryptoLaws r c) (hex_laws : HexLaws hex) (json : Json TopologyFile)
      (files : Files) where
    -- A relay whose configuration has the secret that the key generator printed starts, in whatever state
    -- of the generator and without a draw, with exactly the key pair that was generated; a topology
    -- entry that has the public key that was printed is read to the public key of that pair, with which
    -- the identity of the relay answers.
    pub relay_keypair-keygen :
        (config : RelayConfig) (entry : RelayEntry) (s s2 : r.State)
        → config.static_secret_hex ≡ some (keygen s).0.static_secret_hex
        → entry.public_key ≡ (keygen s).0.public_key
        → (relay_keypair r c hex config s2 ≡ (ok (Keys.generate r c s).0, s2))
          × (entry_key r c hex json files entry ≡ ok (Keys.public_key r c (Keys.generate r c s).0))
          × ((relay_identity r c hex config (Keys.generate r c s).0).public_key
              ≡ Keys.public_key r c (Keys.generate r c s).0)
    unfolding keygen entry_key public_key_to_hex
    relay_keypair-keygen config entry s s2 configured listed =
        let keypair = (Keys.generate r c s).0 in
        let bytes = c.public_as_bytes keypair.public in
        (
          relay_keypair-to_hex r c hex laws hex_laws config keypair s2 (Keys.generate-IsPair r c s)
              configured,
          rw
              (
                listed,
                hex_laws.decode-encode bytes (laws.public_as_bytes-IsByte keypair.public),
                (==_iff (length bytes) 32).1 (laws.length-public_as_bytes keypair.public),
                laws.public_from_bytes-as_bytes keypair.public,
              )
              refl,
          refl,
        )
