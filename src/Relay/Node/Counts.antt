-- ===== src/Relay/Node/Counts.antt =====
-- The counters of a relay.
use orf_veil.Prelude.{ℕ, ◌+◌, ◌<◌, ◌≡◌, ap, sym, ◌∙◌, arith, inl, inr, List, [], ◌∷◌, length}
use orf_veil.Prelude.Bytes.{Bytes}
use orf_veil.Prelude.Result.{Result, ok, err, and_then-eq-ok, Result-cases}
use orf_veil.External.Random.{Rng}
use orf_veil.External.Crypto.{Crypto}
use orf_veil.Core.Crypto.Keys.{KeyPair}
use orf_veil.Relay.Forwarding.{OnionPayload, forward, deliver, peel_onion_layer}
use orf_veil.Relay.Node.{
  Metrics, Dialer, Outbound, RelayNode, count_forwarded, forward_frame, handle_payload,
  handle_frame, handle_connection,
}

-- The frames that were handled.
abbrev pub handled : Metrics → ℕ
handled m = m.cells_forwarded + m.cells_delivered + m.decrypt_failures

module _ (d : Dialer) (r : Rng) (c : Crypto r) (keypair : KeyPair r c) where
  abbrev HandlesOne : RelayNode d → RelayNode d → Type 0
  HandlesOne node node' = handled node'.metrics ≡ handled node.metrics + 1

  count_forwarded-HandlesOne :
      (node node' : RelayNode d) (sent : Result d.IoError (Unit {0}) × Outbound d)
      → handled node.metrics + 1 < 18446744073709551616
      → count_forwarded d node sent ≡ (ok tt, node')
      → HandlesOne node node'
  unfolding count_forwarded
  count_forwarded-HandlesOne node node' (ok _, o) h e =
      ap (λ x. handled x.1.metrics) (sym e) ∙ omega arith
  count_forwarded-HandlesOne node node' (err x, o) h e = cc

  handle_payload-HandlesOne :
      (p : OnionPayload) (node node' : RelayNode d)
      → handled node.metrics + 1 < 18446744073709551616
      → handle_payload d p node ≡ (ok tt, node')
      → HandlesOne node node'
  unfolding handle_payload
  handle_payload-HandlesOne (forward hop body) node node' h e =
      count_forwarded-HandlesOne node node' (forward_frame d hop body node.outbound) h e
  handle_payload-HandlesOne (deliver body) node node' h e =
      ap (λ x. handled x.1.metrics) (sym e) ∙ omega arith

  handle_frame-HandlesOne :
      (frame : Bytes) (node node' : RelayNode d)
      → handled node.metrics + 1 < 18446744073709551616
      → handle_frame d r c keypair frame node ≡ (ok tt, node')
      → HandlesOne node node'
  unfolding handle_frame
  handle_frame-HandlesOne frame node node' h e =
      elim (Result-cases (peel_onion_layer r c keypair frame)) [
        | inl (p, q) ↦ handle_payload-HandlesOne p node node' h (rw (q, handle_frame) at e)
        | inr (x, q) ↦
            let e' = rw (q, handle_frame) at e in
            ap (λ x. handled x.1.metrics) (sym e') ∙ omega arith
      ]

  -- When a connection ends without an error, each of its frames was counted exactly once: as
  -- forwarded, as delivered or as a failure, as long as the counts stay below 2 ^ 64.
  pub handle_connection-handled :
      (frames : List Bytes) (node node' : RelayNode d)
      → handled node.metrics + length frames < 18446744073709551616
      → handle_connection d r c keypair frames node ≡ (ok tt, node')
      → handled node'.metrics ≡ handled node.metrics + length frames
  unfolding handle_connection
  handle_connection-handled [] node node' h e = ap (λ x. handled x.1.metrics) (sym e) ∙ omega arith
  handle_connection-handled (frame ∷ frames) node node' h e =
      let (u, node1, first, rest) =
        and_then-eq-ok (handle_frame d r c keypair frame node)
          (λ _ node1. handle_connection d r c keypair frames node1) tt node' e in
      let one = handle_frame-HandlesOne frame node node1 (omega arith) first in
      let more = handle_connection-handled frames node1 node' (omega (arith, one)) rest in
      more ∙ omega (arith, one)
