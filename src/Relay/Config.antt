-- ===== src/Relay/Config.antt =====
-- crates/veil-relay/src/config.rs and main.rs: the configuration of a relay and its start. The values
-- that `serde` puts in for missing fields are the library's work; logging and tasks are not modelled.
pub mod Keygen
pub mod Start
use orf_veil.Prelude.{leb, if◌then◌else◌, ◌≡◌, refl, ℕ, [], Option, none, some}
use orf_veil.Prelude.Bytes.{Bytes}
use orf_veil.Prelude.Result.{Result, ok, ◌>>=◌, map_err}
use orf_veil.External.Random.{Rng}
use orf_veil.External.Crypto.{Crypto, CryptoLaws}
use orf_veil.External.Text.{Hex, HexLaws}
use orf_veil.External.Toml.{Toml}
use orf_veil.External.Files.{Files}
use orf_veil.Core.Error.{VeilResult}
use orf_veil.Core.Crypto.Keys
use orf_veil.Core.Crypto.Keys.{KeyPair}
use orf_veil.Core.Crypto.Keys.Text.{to_hex, from_hex, from_hex-to_hex}
use orf_veil.Relay.Address.{SocketAddr, addr_text}
use orf_veil.Relay.Forwarding.{OnionError}
use orf_veil.Relay.Node.{RelayNode, Dialer}
use orf_veil.Relay.Node.Limiter.{Limiter}
use orf_veil.Relay.PullListener.{RelayIdentity}

pub record RelayConfig : Type 0 where
  pub listen_addr : SocketAddr
  pub relay_id : Bytes
  pub static_secret_hex : Option Bytes
  pub max_connections : ℕ

abbrev pub default_max_connections : ℕ
default_max_connections = 256

-- The two messages of `RelayError::Config` are its first two constructors.
pub data RelayError (IoError TomlError : Type 0) : Type 0 where
  cannot_read : Bytes → IoError → RelayError IoError TomlError
  invalid_config : TomlError → RelayError IoError TomlError
  relay_io : IoError → RelayError IoError TomlError
  relay_onion : OnionError → RelayError IoError TomlError

module _ (toml : Toml RelayConfig) (files : Files) where
  -- `RelayConfig::load`
  unfoldable pub load_config :
      Bytes → files.State → Result (RelayError files.IoError toml.Error) RelayConfig
  load_config path s = do
    raw ← map_err (λ e. cannot_read path e) (files.read_to_string path s)
    map_err (λ e. invalid_config e) (toml.from_str raw)

-- `Semaphore::MAX_PERMITS` of the crate tokio, `usize::MAX >> 3`, on 64 bits.
abbrev pub max_permits : ℕ
max_permits = 2305843009213693951

module _ (d : Dialer) where
  -- All counters at zero, no connection in the pool, nothing delivered.
  abbrev pub empty_node : d.State → RelayNode d
  empty_node network = record {
    metrics = record {
      cells_forwarded = 0;
      cells_delivered = 0;
      decrypt_failures = 0;
      connections_rejected = 0;
    };
    outbound = record { pool = []; network = network };
    delivered = [];
  }

  -- `RelayNode::new`, with all permits of the semaphore free; `none` is the panic of `Semaphore::new`
  -- on more permits than it can hold.
  unfoldable pub new_node : RelayConfig → d.State → Option (RelayNode d × Limiter)
  new_node config network =
      if leb config.max_connections max_permits
      then some (empty_node network, record { open_connections = 0; connections_rejected = 0 })
      else none

module _ (r : Rng) (c : Crypto r) (hex : Hex) where
  -- The key pair that `main` takes from the configuration, or generates.
  unfoldable pub relay_keypair : RelayConfig → r.State → VeilResult (KeyPair r c) × r.State
  relay_keypair config s = elim config.static_secret_hex [
    | some secret ↦ (from_hex r c hex secret, s)
    | none ↦ (let (keypair, s') = Keys.generate r c s in (ok keypair, s'))
  ]

  -- The identity that DESCRIBE answers with.
  abbrev pub relay_identity : RelayConfig → KeyPair r c → RelayIdentity r c
  relay_identity config keypair = record {
    id = config.relay_id;
    public_key = Keys.public_key r c keypair;
    main_addr = addr_text config.listen_addr;
  }

  -- A relay whose configuration has the hexadecimal form of a key pair, with the public key of its
  -- secret, starts with exactly that pair, and draws nothing.
  pub relay_keypair-to_hex :
      CryptoLaws r c
      → HexLaws hex
      → (config : RelayConfig) (k : KeyPair r c) (s : r.State) → Keys.IsPair r c k
      → config.static_secret_hex ≡ some (to_hex r c hex k)
      → relay_keypair config s ≡ (ok k, s)
  unfolding relay_keypair
  relay_keypair-to_hex laws hex_laws config k s pair configured =
      rw (configured, from_hex-to_hex r c hex laws hex_laws k pair, relay_keypair) refl
