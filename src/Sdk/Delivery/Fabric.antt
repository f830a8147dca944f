-- ===== src/Sdk/Delivery/Fabric.antt =====
-- All relays together: each runs rounds of `handle_connection` on the frames that reach its address,
-- one frame at a time and in any order, and all write to one network. The steps take the frames that are in
-- flight; the relays keep what they deliver.
pub mod Owed
pub mod Moves
pub mod Runs
pub mod Progress
use orf_veil.Prelude.{
  ℕ, zero, suc, ◌≡◌, refl, ap, sym, ◌∙◌, Bool, true, false, List, [], ◌∷◌, ◌++◌, length, drop,
  if◌then◌else◌,
}
use orf_veil.Prelude.Bytes.{Bytes, bytes_eq}
use orf_veil.Prelude.Result.{Result}
use orf_veil.External.Random.{Rng}
use orf_veil.External.Crypto.{Crypto}
use orf_veil.Core.Crypto.Keys.{KeyPair}
use orf_veil.Relay.Node.{Dialer, RelayNode, handle_frame}
use orf_veil.Relay.Node.Hop.{Works}
use orf_veil.Sdk.Delivery.Travelling.{Handed}
use mathlib.Core.List.{append_assoc}

-- The network, the frames in flight with the addresses that they go to, and the relays by address.
pub record Fabric (d : Dialer) : Type 0 where
  pub network : d.State
  pub in_flight : List Handed
  pub relays : List (Bytes × RelayNode d)

module _ (d : Dialer) where
  -- What the relays have delivered.
  unfoldable pub kept : List (Bytes × RelayNode d) → List Bytes
  kept [] = []
  kept ((addr, node) ∷ relays) = node.delivered ++ kept relays

  -- The addresses of the relays.
  unfoldable pub served : List (Bytes × RelayNode d) → List Bytes
  served [] = []
  served ((addr, node) ∷ relays) = addr ∷ served relays

  -- A relay goes on with the network as it is now.
  abbrev pub resume : d.State → RelayNode d → RelayNode d
  resume network node = record node { outbound = record node.outbound { network = network } }

  -- What is in flight when the sender has handed over its frames.
  abbrev pub joined : Fabric d → List Handed → Fabric d
  joined f frames = record f { in_flight = f.in_flight ++ frames }

  pub kept-append : (xs ys : List (Bytes × RelayNode d)) → kept (xs ++ ys) ≡ kept xs ++ kept ys
  unfolding kept
  kept-append [] ys = refl
  kept-append ((addr, node) ∷ xs) ys =
      ap (λ l. node.delivered ++ l) (kept-append xs ys)
      ∙ sym (append_assoc node.delivered (kept xs) (kept ys))

  pub served-middle :
      (xs ys : List (Bytes × RelayNode d)) (addr : Bytes) (node node' : RelayNode d)
      → served (xs ++ ((addr, node') ∷ ys)) ≡ served (xs ++ ((addr, node) ∷ ys))
  unfolding served
  served-middle [] ys addr node node' = refl
  served-middle ((a, n) ∷ xs) ys addr node node' = ap (◌∷◌ a) (served-middle xs ys addr node node')

  module _ (w : Works d) (r : Rng) (c : Crypto r) (keypair_at : Bytes → KeyPair r c) where
    -- A relay takes any one of the frames that go to its address, with whatever outcome, and what it
    -- writes is in flight then.
    pub data FabricStep : Fabric d → Fabric d → Type 0 where
      handle :
          (early late : List Handed) (addr frame : Bytes)
          (before after : List (Bytes × RelayNode d)) (node node' : RelayNode d) (network : d.State)
          (outcome : Result d.IoError (Unit {0}))
          → handle_frame d r c (keypair_at addr) frame (resume network node) ≡ (outcome, node')
          → FabricStep
              (record {
                network = network;
                in_flight = early ++ ((addr, frame) ∷ late);
                relays = before ++ ((addr, node) ∷ after);
              })
              (record {
                network = node'.outbound.network;
                in_flight =
                    (early ++ late)
                    ++ drop (length (w.sent network)) (w.sent node'.outbound.network);
                relays = before ++ ((addr, node') ∷ after);
              })

    -- A run of so many steps.
    pub data FabricRun : ℕ → Fabric d → Fabric d → Type 0 where
      stay : {f : Fabric d} → FabricRun zero f f
      go_on : {n : ℕ} {f g h : Fabric d} → FabricStep f g → FabricRun n g h → FabricRun (suc n) f h
