-- ===== src/Tests/StartInputs.antt =====
-- The theorems on keys, the start of a relay and discovery at concrete inputs.
use mathlib.Core.Option
use orf_veil.Prelude.{
  ℕ, ◌+◌, ◌≡◌, refl, arith, Bool, true, if◌then◌else◌, ◌==◌, List, [], ◌∷◌, some,
}
use orf_veil.Prelude.Bytes.{Bytes, bytes_eq}
use orf_veil.Prelude.Map.{Map, lookup}
use orf_veil.Prelude.Result.{Result, ok, err}
use orf_veil.Core.Crypto.Keys.{KeyPair}
use orf_veil.Relay.Config.{RelayConfig, relay_keypair, relay_identity}
use orf_veil.External.Toml.{Toml}
use orf_veil.Prelude.Utf8.{is_utf8}
use orf_veil.Prelude.Decimal.{decimal, decimal_from}
use orf_veil.Relay.Address.{SocketAddr, addr_text, add_u16, mailbox_addr}
use orf_veil.Relay.Config.{load_config, relay_keypair-to_hex, new_node}
use orf_veil.Core.Crypto.Keys
use orf_veil.Relay.Config.Start.{Started, started_with, with_keypair, with_config, start}
use orf_veil.Cli.Listed.{IsListed, start-IsListed}
use orf_veil.Tests.NodeInputs.{log_dialer, fresh_node}
use orf_veil.Relay.Config.Keygen.{Printed, keygen, relay_keypair-keygen}
use orf_veil.Relay.PullListener.{RelayIdentity}
use orf_veil.Routing.Discovery.{discover_topology}
use orf_veil.Routing.Discovery.Answers.{Agrees, answers, discover_topology-Agrees}
use orf_veil.Routing.Topology
use orf_veil.Routing.Topology.{RelayInfo, Topology}
use orf_veil.Routing.TopologyFile.{RelayEntry, entry_key}
use orf_veil.Tests.World.{rng, crypto, crypto_laws}
use orf_veil.Tests.TextInputs.{hex, hex_laws, json, files, config, path}

abbrev printed : Printed
printed = (keygen rng crypto hex 7).0

abbrev keygen_config : RelayConfig
keygen_config = record config { static_secret_hex = some printed.static_secret_hex }

abbrev keygen_entry : RelayEntry
keygen_entry = record { id = 97 ∷ []; address = 98 ∷ []; public_key = printed.public_key }

relay_keypair-keygen_example :
    (relay_keypair rng crypto hex keygen_config 4 ≡ (ok (Keys.generate rng crypto 7).0, 4))
    × (entry_key rng crypto hex json files keygen_entry
        ≡ ok (Keys.public_key rng crypto (Keys.generate rng crypto 7).0))
    × ((relay_identity rng crypto hex keygen_config (Keys.generate rng crypto 7).0).public_key
        ≡ Keys.public_key rng crypto (Keys.generate rng crypto 7).0)
relay_keypair-keygen_example =
    relay_keypair-keygen rng crypto hex crypto_laws hex_laws json files keygen_config keygen_entry 7
      4 refl refl

-- Two relays with one id, and one that does not answer.
abbrev describe : Bytes → ℕ → Result Bool (RelayIdentity rng crypto) × ℕ
describe addr n =
    if n == 1
    then (err true, n + 1)
    else (ok (record { id = 97 ∷ []; public_key = true; main_addr = addr }), n + 1)

abbrev asked : List Bytes
asked = (1 ∷ []) ∷ (2 ∷ []) ∷ (3 ∷ []) ∷ []

discover_topology-Agrees_example :
    Agrees rng crypto ℕ Bool describe
      (answers rng crypto ℕ Bool describe asked 0)
      (Topology.new rng crypto)
      (discover_topology rng crypto ℕ Bool describe asked 0).0
discover_topology-Agrees_example = discover_topology-Agrees rng crypto ℕ Bool describe asked 0

-- Every document is the configuration with the printed secret.
abbrev toml : Toml RelayConfig
toml = record { Error = Unit {0}; from_str = λ text. ok keygen_config }

abbrev disk : Map Bytes
disk = (path, 1 ∷ []) ∷ []

abbrev mailbox_address : SocketAddr
mailbox_address = record { ip = 49 ∷ []; port = 10000 }

abbrev keygen_pair : KeyPair rng crypto
keygen_pair = (Keys.generate rng crypto 7).0

keygen_read : relay_keypair rng crypto hex keygen_config 4 ≡ (ok keygen_pair, 4)
unfolding keygen
keygen_read =
    relay_keypair-to_hex rng crypto hex crypto_laws hex_laws keygen_config keygen_pair 4
      (Keys.generate-IsPair rng crypto 7) refl

abbrev started : Started rng crypto log_dialer
started =
    started_with rng crypto hex toml files log_dialer
      (fresh_node, record { open_connections = 0; connections_rejected = 0 }) keygen_config
      keygen_pair mailbox_address

is_started : start rng crypto hex toml files log_dialer true path disk [] 4 ≡ some (ok started, 4)
unfolding start with_config with_keypair load_config lookup bytes_eq mailbox_addr add_u16 new_node
    Option.bind
is_started = rw (keygen_read, with_keypair) refl

address_text : is_utf8 (addr_text config.listen_addr) ≡ true
unfolding is_utf8 addr_text decimal decimal_from
address_text = refl

start-IsListed_example : IsListed rng crypto hex toml files log_dialer true [] started
unfolding addr_text decimal decimal_from
start-IsListed_example =
    start-IsListed rng crypto hex toml files log_dialer true [] path disk started 4 4 is_started
      (record {
        port = omega arith;
        text = address_text;
        fits = omega arith;
        bytes = (
          omega arith,
          (omega arith, (omega arith, (omega arith, (omega arith, (omega arith, tt))))),
        );
      })
