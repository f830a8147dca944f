-- ===== src/Sdk/CoverTraffic/Total.antt =====
-- The loop of the cover traffic goes on.
use orf_veil.Prelude.{ℕ, ◌-◌, ◌/◌, ◌<◌, ◌≡◌, refl, inl, inr, List, [], ◌∷◌, Option, some}
use orf_veil.Prelude.Bytes.{Bytes}
use orf_veil.Prelude.Result.{Result, Result-cases}
use orf_veil.External.Random.{Rng, RngLaws}
use orf_veil.External.Crypto.{Crypto, CryptoLaws}
use orf_veil.Core.Cell.{Cell}
use orf_veil.Core.Cell.Valid.{IsValid}
use orf_veil.Sdk.CoverTraffic.Shape.{seal_dummy_envelope}
use orf_veil.Routing.Circuit.{build_circuit, split_last}
use orf_veil.Routing.DummyTraffic.{DummyTrafficGenerator, next_dummy_ok}
use orf_veil.Routing.PathSelection.{select_diverse_path}
use orf_veil.Routing.Topology.{RelayInfo, Topology}
use orf_veil.Sdk.CoverTraffic.{seal_dummy, send_first, route_dummy, send_dummy, cover_round}
use mathlib.Core.Option

module _ (r : Rng) (c : Crypto r) (N IoError : Type 0)
    (send_to : Bytes → Bytes → N → Result IoError (Unit {0}) × N) where
  abbrev Ends : Option (r.State × N) → Type 0
  Ends o = (out : r.State × N) × (o ≡ some out)

  -- An empty path is refused by `build_circuit`, before its first hop is asked for.
  route_dummy_total :
      (path : List (RelayInfo r c)) (enveloped : Bytes) (s : r.State) (n : N)
      → Ends (route_dummy r c N IoError send_to path enveloped s n)
  unfolding route_dummy build_circuit split_last send_first
  route_dummy_total [] enveloped s n = ((s, n), refl)
  route_dummy_total (x ∷ xs) enveloped s n =
      elim (Result-cases (build_circuit r c (x ∷ xs) enveloped s).0) [
        | inr (e, h) ↦ (((build_circuit r c (x ∷ xs) enveloped s).1, n), rw (h, route_dummy) refl)
        | inl (onion, h) ↦ (
          ((build_circuit r c (x ∷ xs) enveloped s).1, (send_to x.address onion n).1),
          rw (h, route_dummy) refl,
        )
      ]

  module _ (rng : RngLaws r) (laws : CryptoLaws r c) where
    send_dummy_total :
        (t : Topology r c) (hops : ℕ) (cell : Cell) (s : r.State) (n : N)
        → IsValid cell
        → Ends (send_dummy r c N IoError send_to t hops cell s n)
    unfolding send_dummy
    send_dummy_total t hops cell s n v =
        let s1 = (seal_dummy r c cell s).1 in
        let selection = select_diverse_path r c t hops s1 in
        let (enveloped, e, _, _) = seal_dummy_envelope r c rng laws cell s v in
        elim (Result-cases selection.0) [
          | inr (x, q) ↦ ((selection.1, n), rw (e, q, send_dummy) refl)
          | inl (path, q) ↦
              let (out, t) = route_dummy_total path enveloped selection.1 n in
              (out, rw (e, q, send_dummy) t)
        ]

    -- When the span of the intervals is below 2 ^ 64 milliseconds, no round panics, whatever the
    -- topology, the number of hops and the network, so the loop goes on.
    pub cover_round_total :
        (t : Topology r c) (hops : ℕ) (g : DummyTrafficGenerator) (s : r.State) (n : N)
        → (g.max_interval - g.min_interval) / 1000000 < 18446744073709551616
        → Ends (cover_round r c N IoError send_to t hops g s n)
    unfolding cover_round Option.bind
    cover_round_total t hops g s n span =
        let (delay, cell, s', e, _, _, v) = next_dummy_ok r rng g s span in
        let (out, q) = send_dummy_total t hops cell s' n v in (out, rw (e, cover_round) q)
