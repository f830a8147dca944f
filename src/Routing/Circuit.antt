-- ===== src/Routing/Circuit.antt =====
-- `build_circuit` of crates/veil-routing/src/lib.rs.
pub mod Peeling
use orf_veil.Prelude.{List, [], ◌∷◌, Option, none, some}
use orf_veil.Prelude.Bytes.{Bytes}
use orf_veil.Prelude.Result.{Result, ok, err, and_then, from_err}
use orf_veil.External.Random.{Rng}
use orf_veil.External.Crypto.{Crypto}
use orf_veil.Relay.Forwarding.{OnionError, forward, deliver, build_onion_layer}
use orf_veil.Routing.Topology.{RelayInfo}
use orf_veil.Routing.PathSelection.{PathSelectionError}

pub data CircuitError : Type 0 where
  path_selection : PathSelectionError → CircuitError
  onion : OnionError → CircuitError
  empty_path : CircuitError

module _ (r : Rng) (c : Crypto r) where
  -- `path.split_last()`: the exit relay and the hops before it.
  unfoldable pub split_last : List (RelayInfo r c) → Option (RelayInfo r c × List (RelayInfo r c))
  split_last [] = none
  split_last (relay ∷ rest) = elim (split_last rest) [
    | none ↦ some (relay, [])
    | some (exit, inner) ↦ some (exit, relay ∷ inner)
  ]

  -- `next_hop_addr`: the address of the hop that follows, which is the exit behind the last.
  abbrev pub next_hop_addr : List (RelayInfo r c) → RelayInfo r c → Bytes
  next_hop_addr [] exit = exit.address
  next_hop_addr (next ∷ rest) exit = next.address

  -- The loop over `(0..inner_hops.len()).rev()`: the layers of the later hops are built first.
  unfoldable pub wrap_hops :
      List (RelayInfo r c) → RelayInfo r c → Bytes → r.State → Result CircuitError Bytes × r.State
  wrap_hops [] exit layer s = (ok layer, s)
  wrap_hops (hop ∷ rest) exit layer s = and_then (wrap_hops rest exit layer s) (λ body s'.
      from_err onion
        (build_onion_layer r c hop.public_key (forward (next_hop_addr rest exit) body) s'))

  unfoldable pub build_circuit :
      List (RelayInfo r c) → Bytes → r.State → Result CircuitError Bytes × r.State
  build_circuit path final_body s = elim (split_last path) [
    | none ↦ (err empty_path, s)
    | some (exit, inner_hops) ↦
        and_then (from_err onion (build_onion_layer r c exit.public_key (deliver final_body) s))
          (λ layer s'. wrap_hops inner_hops exit layer s')
  ]
