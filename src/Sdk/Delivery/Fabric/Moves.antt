-- ===== src/Sdk/Delivery/Fabric/Moves.antt =====
-- One step of a relay: the frame is one hop further, or its body is delivered.
use orf_veil.Prelude.{ℕ, suc, ◌≡◌, refl, ◌⊎◌, inl, inr, List, [], ◌∷◌, ◌++◌, true, map, length, All}
use orf_veil.Prelude.Bytes.{Bytes}
use orf_veil.Prelude.Result.{ok}
use orf_veil.External.Random.{Rng}
use orf_veil.External.Crypto.{Crypto}
use orf_veil.Core.Crypto.Keys.{KeyPair}
use orf_veil.Relay.Node.{Dialer, RelayNode, handle_frame}
use orf_veil.Relay.Node.Hop.{Works, IsPooled, handle_frame-Hops}
use orf_veil.Routing.Circuit.Peeling.{Reaches}
use orf_veil.Routing.Topology.{RelayInfo}
use orf_veil.Sdk.Delivery.Fleet.{host}
use orf_veil.Sdk.Delivery.Travelling.{Handed}
use orf_veil.Sdk.Delivery.Fabric.Owed.{serves, keypair_of, OnItsWay}
use mathlib.Core.Path.{subst}

module _ (d : Dialer) (w : Works d) (r : Rng) (c : Crypto r) (keypair_at : Bytes → KeyPair r c)
    (addrs : List Bytes) where
  -- Either that was the last hop, and the body is kept; or one frame is written, which has one hop less.
  abbrev pub Moved : Bytes → ℕ → RelayNode d → RelayNode d → Type 0
  Moved body hops node node' =
      ((hops ≡ 1)
        × (node'.delivered ≡ node.delivered ++ (body ∷ []))
        × (w.sent node'.outbound.network ≡ w.sent node.outbound.network))
      ⊎ ((handed : Handed) × (left : ℕ) × (hops ≡ suc left)
          × OnItsWay r c keypair_at addrs body handed left
          × (node'.delivered ≡ node.delivered)
          × (w.sent node'.outbound.network ≡ w.sent node.outbound.network ++ (handed ∷ [])))

  module _ (body frame : Bytes) (node : RelayNode d) where
    abbrev Handled : Bytes → ℕ → Type 0
    Handled addr hops =
        (node' : RelayNode d) × (handle_frame d r c (keypair_at addr) frame node ≡ (ok tt, node'))
        × Moved body hops node node'
        × IsPooled d w node'.outbound.pool

    relay-Handled :
        (x : RelayInfo r c) (xs : List (RelayInfo r c)) (hops : ℕ)
        → hops ≡ suc (length xs)
        → All (λ y. serves addrs y.address ≡ true) (x ∷ xs)
        → Reaches r c body (map (host r c (keypair_of r c keypair_at)) (x ∷ xs)) frame
        → IsPooled d w node.outbound.pool
        → Handled x.address hops
    relay-Handled x [] hops n run reaches pooled =
        let (node', e, (kept, same), pooled') =
          handle_frame-Hops d w r c (host r c (keypair_of r c keypair_at) x) [] body frame node
            reaches pooled in
        (node', e, inl (n, kept, same), pooled')
    relay-Handled x (y ∷ ys) hops n run reaches pooled =
        let at = host r c (keypair_of r c keypair_at) in
        let (node', e, (inner, further, same, log), pooled') =
          handle_frame-Hops d w r c (at x) (map at (y ∷ ys)) body frame node reaches pooled in
        (
          node',
          e,
          inr (
            (y.address, inner),
            suc (length ys),
            n,
            record {
              first = y;
              others = ys;
              goes_to = refl;
              hops_left = refl;
              running = run.1;
              reaches = further;
            },
            same,
            log,
          ),
          pooled',
        )

    -- The relay at the address handles a frame that is on its way without an error.
    pub OnItsWay-Handled :
        (addr : Bytes) (hops : ℕ)
        → OnItsWay r c keypair_at addrs body (addr, frame) hops
        → IsPooled d w node.outbound.pool
        → Handled addr hops
    OnItsWay-Handled addr hops on pooled =
        subst (λ a. Handled a hops) on.goes_to
          (relay-Handled on.first on.others hops on.hops_left on.running on.reaches pooled)
