-- ===== src/Routing/Topology.antt =====
-- crates/veil-routing/src/topology.rs: the relays that a client knows, by id.
use orf_veil.Prelude.{ℕ, ◌≡◌, List, [], Bool, Option, some, length, if◌then◌else◌, ◌==◌}
use orf_veil.Prelude.Bytes.{Bytes, bytes_eq}
use orf_veil.Prelude.Map.{Map, lookup, insert, values, lookup-insert}
use orf_veil.External.Random.{Rng}
use orf_veil.External.Crypto.{Crypto}

pub record RelayInfo (r : Rng) (c : Crypto r) : Type 0 where
  pub id : Bytes
  pub address : Bytes
  pub public_key : c.PublicKey

pub record Topology (r : Rng) (c : Crypto r) : Type 0 where
  pub relays : Map (RelayInfo r c)

module _ (r : Rng) (c : Crypto r) where
  -- `Topology::new`
  abbrev pub new : Topology r c
  new = record { relays = [] }

  unfoldable pub add_relay : RelayInfo r c → Topology r c → Topology r c
  add_relay relay t = record { relays = insert relay.id relay t.relays }

  unfoldable pub get : Bytes → Topology r c → Option (RelayInfo r c)
  get id t = lookup id t.relays

  -- `Topology::all`, in the map's order.
  abbrev pub all : Topology r c → List (RelayInfo r c)
  all t = values t.relays

  abbrev pub len : Topology r c → ℕ
  len t = length t.relays

  abbrev pub is_empty : Topology r c → Bool
  is_empty t = len t == 0

  -- After a relay is added its id finds it, and every other id finds what it found before.
  pub get-add_relay :
      (relay : RelayInfo r c) (t : Topology r c) (id : Bytes)
      → get id (add_relay relay t) ≡ (if bytes_eq relay.id id then some relay else get id t)
  unfolding get add_relay
  get-add_relay relay t id = lookup-insert relay.id id relay t.relays
