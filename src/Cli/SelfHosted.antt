-- ===== src/Cli/SelfHosted.antt =====
-- `run_self_hosted` of crates/veil-cli/src/main.rs: relays on ports from 20000 on, each with its mailbox
-- 1000 ports above. Of each relay that is started the model keeps the entry in the topology and the
-- address of the mailbox; its tasks are not modelled.
pub mod Started
use orf_veil.Prelude.{
  ℕ, zero, suc, ◌+◌, List, [], ◌∷◌, ◌++◌, Bool, Option, none, some, ltb, if◌then◌else◌,
}
use orf_veil.Prelude.Bytes.{Bytes}
use orf_veil.Prelude.Decimal.{decimal}
use orf_veil.Prelude.Result.{Result}
use orf_veil.External.Random.{Rng}
use orf_veil.External.Crypto.{Crypto}
use orf_veil.Core.Crypto.Keys
use orf_veil.Core.Crypto.Keys.{KeyPair}
use orf_veil.Relay.Address.{SocketAddr, addr_text, mailbox_addr}
use orf_veil.Relay.Config.{RelayConfig}
use orf_veil.Routing.Topology
use orf_veil.Routing.Topology.{RelayInfo, Topology}
use orf_veil.Sdk.Receiver.{Network}
use orf_veil.Cli.Modes.{Outcome, send_and_receive}
use mathlib.Core.Option

-- `format!("relay-{i}")`, for an index below 65536: behind that the address of the relay panics.
unfoldable pub local_relay_id : ℕ → Bytes
local_relay_id i = 114 ∷ 101 ∷ 108 ∷ 97 ∷ 121 ∷ 45 ∷ decimal i

-- `format!("127.0.0.1:{}", 20000 + i).parse()`, which fails for a port that is no `u16`.
unfoldable pub local_addr : ℕ → Option SocketAddr
local_addr i =
    if ltb (20000 + i) 65536
    then some (record { ip = 49 ∷ 50 ∷ 55 ∷ 46 ∷ 48 ∷ 46 ∷ 48 ∷ 46 ∷ 49 ∷ []; port = 20000 + i })
    else none

abbrev pub local_config : ℕ → SocketAddr → RelayConfig
local_config i addr = record {
  listen_addr = addr;
  relay_id = local_relay_id i;
  static_secret_hex = none;
  max_connections = 16;
}

module _ (r : Rng) (c : Crypto r) where
  -- The entry of a relay with the configuration.
  abbrev pub local_info : RelayConfig → KeyPair r c → RelayInfo r c
  local_info config keypair = record {
    id = config.relay_id;
    address = addr_text config.listen_addr;
    public_key = Keys.public_key r c keypair;
  }

  -- The loop over `0..hop_count`, from the index on; `none` is the panic of the address or of the port
  -- of the mailbox.
  unfoldable pub start_relays :
      Bool
      → ℕ
      → ℕ
      → Topology r c
      → List Bytes
      → r.State
      → Option ((Topology r c × List Bytes) × r.State)
  start_relays overflow_checks zero i topology addrs s = some ((topology, addrs), s)
  start_relays overflow_checks (suc rest) i topology addrs s =
      let (keypair, s') = Keys.generate r c s in
      Option.bind (local_addr i) (λ addr.
        Option.bind (mailbox_addr overflow_checks addr) (λ mailbox.
          start_relays overflow_checks rest (i + 1)
            (Topology.add_relay r c (local_info (local_config i addr) keypair) topology)
            (addrs ++ (addr_text mailbox ∷ [])) s'))

  module _ (net : Network)
      (send_to : Bytes → Bytes → net.State → Result net.IoError (Unit {0}) × net.State) where
    unfoldable pub run_self_hosted :
        Bool → Bytes → ℕ → r.State → net.State → Option (Outcome × net.State)
    unfolding start_relays
    run_self_hosted overflow_checks message hop_count s n =
        Option.bind (start_relays overflow_checks hop_count 0 (Topology.new r c) [] s)
          (λ ((topology, addrs), s').
            send_and_receive r c net send_to topology hop_count message addrs s' n)
