-- ===== src/Routing/Discovery.antt =====
-- crates/veil-routing/src/discovery.rs: a topology from what the relays say of themselves. `describe`
-- stands for `pull_listener::describe`, on a network whose state each call advances.
pub mod Answers
use orf_veil.Prelude.{List, [], ◌∷◌}
use orf_veil.Prelude.Bytes.{Bytes}
use orf_veil.Prelude.Result.{Result, ok, err}
use orf_veil.External.Random.{Rng}
use orf_veil.External.Crypto.{Crypto}
use orf_veil.Relay.PullListener.{RelayIdentity}
use orf_veil.Routing.Topology
use orf_veil.Routing.Topology.{RelayInfo, Topology}

pub record UnreachableRelay (IoError : Type 0) : Type 0 where
  pub address : Bytes
  pub error : IoError

module _ (r : Rng) (c : Crypto r) (N IoError : Type 0)
    (describe : Bytes → N → Result IoError (RelayIdentity r c) × N) where
  abbrev pub Found : Type 0
  Found = Topology r c × List (UnreachableRelay IoError)

  -- The entry of a relay that answered.
  abbrev pub info_of : RelayIdentity r c → RelayInfo r c
  info_of identity = record {
    id = identity.id;
    address = identity.main_addr;
    public_key = identity.public_key;
  }

  -- The loop over the addresses, from the topology so far; the failures come in their order.
  unfoldable pub discover_loop : List Bytes → Topology r c → N → Found × N
  discover_loop [] topology n = ((topology, []), n)
  discover_loop (address ∷ addresses) topology n =
      let (answer, n') = describe address n in
      elim answer [
        | ok identity ↦
            discover_loop addresses (Topology.add_relay r c (info_of identity) topology) n'
        | err error ↦
            (let ((found, unreachable), n'') = discover_loop addresses topology n' in
              ((found, record { address = address; error = error } ∷ unreachable), n''))
      ]

  -- `discover_topology`
  unfoldable pub discover_topology : List Bytes → N → Found × N
  unfolding discover_loop
  discover_topology addresses n = discover_loop addresses (Topology.new r c) n
