-- ===== src/Sdk/Delivery/Fabric/Progress.antt =====
-- The relays are never stuck while a frame is on its way.
use orf_veil.Prelude.{
  ℕ, zero, suc, ◌+◌, ◌≡◌, ap, sym, arith, inl, inr, Bool-cases, true, List, [], ◌∷◌, ◌++◌, All,
  All-middle,
}
use orf_veil.Prelude.Bytes.{Bytes, bytes_eq, bytes_eq_iff}
use orf_veil.Prelude.Result.{ok}
use orf_veil.External.Random.{Rng}
use orf_veil.External.Crypto.{Crypto}
use orf_veil.Core.Crypto.Keys.{KeyPair}
use orf_veil.Relay.Node.{Dialer, RelayNode}
use orf_veil.Relay.Node.Hop.{Works, IsPooled}
use orf_veil.Sdk.Delivery.Travelling.{Handed}
use orf_veil.Sdk.Delivery.Fabric.{
  Fabric, served, resume, FabricStep, handle, FabricRun, stay, go_on,
}
use orf_veil.Sdk.Delivery.Fabric.Owed.{serves, OnItsWay, Owed, Owed-nil}
use orf_veil.Sdk.Delivery.Fabric.Moves.{OnItsWay-Handled}
use orf_veil.Sdk.Delivery.Fabric.Runs.{IsFlowing, FabricStep-Flows, FabricRun-Flows}
use mathlib.Core.Path.{subst}

module _ (d : Dialer) where
  -- A relay at the address, among the others.
  abbrev Placed : Bytes → List (Bytes × RelayNode d) → Type 0
  Placed addr relays =
      (before : List (Bytes × RelayNode d)) × (node : RelayNode d) × (after : List
        (Bytes × RelayNode d))
      × (relays ≡ before ++ ((addr, node) ∷ after))

  serves-Placed :
      (addr : Bytes) (relays : List (Bytes × RelayNode d))
      → serves (served d relays) addr ≡ true
      → Placed addr relays
  unfolding serves served
  serves-Placed addr [] h = cc
  serves-Placed addr ((a, node) ∷ relays) h = elim (Bool-cases (bytes_eq a addr)) [
    | inl same ↦
        let e = (bytes_eq_iff a addr).0 same in ([], node, relays, ap (λ b. (b, node) ∷ relays) e)
    | inr other ↦
        let (before, found, after, e) = serves-Placed addr relays (rw other at h) in
        ((a, node) ∷ before, found, after, ap (◌∷◌ (a, node)) e)
  ]

  module _ (w : Works d) (r : Rng) (c : Crypto r) (keypair_at : Bytes → KeyPair r c)
      (addrs : List Bytes) where
    abbrev Moves : d.State → List Handed → List (Bytes × RelayNode d) → Type 0
    Moves network in_flight relays =
        (g : Fabric d) × FabricStep d w r c keypair_at
          (record { network = network; in_flight = in_flight; relays = relays }) g

    head-Moves :
        (network : d.State) (addr frame : Bytes) (late : List Handed)
        (relays : List (Bytes × RelayNode d)) (body : Bytes) (hops : ℕ)
        → OnItsWay r c keypair_at addrs body (addr, frame) hops
        → All (λ e. IsPooled d w e.1.outbound.pool) relays
        → served d relays ≡ addrs
        → Moves network ((addr, frame) ∷ late) relays
    head-Moves network addr frame late relays body hops on pooled running =
        let at = subst (λ a. serves addrs a ≡ true) on.goes_to on.running.0 in
        let (before, node, after, e) =
          serves-Placed addr relays (subst (λ l. serves l addr ≡ true) (sym running) at) in
        let (_, here, _) =
          All-middle (λ x. IsPooled d w x.1.outbound.pool) before (addr, node) after
            (subst (All (λ x. IsPooled d w x.1.outbound.pool)) e pooled) in
        let (node', handled, _, _) =
          OnItsWay-Handled d w r c keypair_at addrs body frame (resume d network node) addr hops on
            here in
        subst (Moves network ((addr, frame) ∷ late)) (sym e)
          (_, handle [] late addr frame before after node node' network (ok tt) handled)

    pub IsFlowing-Moves :
        (network : d.State) (in_flight : List Handed) (relays : List (Bytes × RelayNode d))
        (bodies : List Bytes) (hops : ℕ)
        → Owed r c keypair_at addrs in_flight bodies (suc hops)
        → All (λ e. IsPooled d w e.1.outbound.pool) relays
        → served d relays ≡ addrs
        → Moves network in_flight relays
    IsFlowing-Moves network [] relays [] hops owed pooled running =
        let impossible : ⊥ = omega (arith, owed) in elim impossible [ ]
    IsFlowing-Moves network [] relays (b ∷ bodies) hops owed pooled running = elim owed [ ]
    IsFlowing-Moves network (h ∷ late) relays [] hops owed pooled running = elim owed [ ]
    IsFlowing-Moves network ((addr, frame) ∷ late) relays (b ∷ bodies) hops (n, m, e, on, rest)
          pooled running =
        head-Moves network addr frame late relays b n on pooled running

    run_on :
        (hops : ℕ) (f : Fabric d) (bodies : List Bytes)
        → IsFlowing d w r c keypair_at addrs f bodies hops
        → (g : Fabric d) × FabricRun d w r c keypair_at hops f g × (g.in_flight ≡ [])
    run_on zero f bodies flow =
        (f, stay, Owed-nil r c keypair_at addrs f.in_flight bodies flow.owed)
    run_on (suc hops) f bodies flow =
        let (g, step) =
          IsFlowing-Moves f.network f.in_flight f.relays bodies hops flow.owed flow.pooled
            flow.running in
        let (left, rest, e, flow', _) =
          FabricStep-Flows d w r c keypair_at addrs bodies (suc hops) step flow in
        let same : left ≡ hops = omega (arith, e) in
        let (h, run, quiet) =
          run_on hops g rest (subst (IsFlowing d w r c keypair_at addrs g rest) same flow') in
        (h, go_on step run, quiet)

    -- However far the relays have come, and in whatever order, on frames that are on their way with so
    -- many hops left in all, they can go on, and with the hops that are still left no frame is in
    -- flight.
    pub FabricRun-ends :
        {k : ℕ} {f g : Fabric d} (bodies : List Bytes) (hops : ℕ)
        → FabricRun d w r c keypair_at k f g
        → IsFlowing d w r c keypair_at addrs f bodies hops
        → (left : ℕ) × (h : Fabric d) × (k + left ≡ hops)
          × FabricRun d w r c keypair_at left g h
          × (h.in_flight ≡ [])
    FabricRun-ends {g = g} bodies hops run flow =
        let (left, rest, e, flow', _) =
          FabricRun-Flows d w r c keypair_at addrs bodies hops run flow in
        let (h, more, quiet) = run_on left g rest flow' in (left, h, sym e, more, quiet)
