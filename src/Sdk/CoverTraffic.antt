-- ===== src/Sdk/CoverTraffic.antt =====
-- crates/veil-sdk/src/cover_traffic.rs: the loop of `spawn`, which runs until it is aborted.
-- As in `send` the network is `TcpStream::connect` followed by `write_frame`; the loop drops its errors.
pub mod Total
pub mod Shape
pub mod Rounds
use orf_veil.Prelude.{ℕ, zero, suc, List, [], ◌∷◌, Option, none, some}
use orf_veil.Prelude.Bytes.{Bytes}
use orf_veil.Prelude.Result.{Result, ok, err}
use orf_veil.External.Random.{Rng}
use orf_veil.External.Crypto.{Crypto}
use orf_veil.Core.Cell.{Cell}
use orf_veil.Core.Crypto.Encryption.{encrypt_cell}
use orf_veil.Routing.Circuit.{build_circuit}
use orf_veil.Routing.DummyTraffic.{DummyTrafficGenerator, new_generator, next_dummy}
use orf_veil.Routing.PathSelection.{select_diverse_path}
use orf_veil.Routing.Topology.{RelayInfo, Topology}
use orf_veil.Sdk.Client.{VeilClient}
use orf_veil.Sdk.Envelope.{wrap}
use mathlib.Core.Option

module _ (r : Rng) (c : Crypto r) where
  -- The dummy under a throwaway key, behind the key of a sender that does not exist; `none` is a
  -- panic, and `some none` is `continue`.
  unfoldable pub seal_dummy : Cell → r.State → Option (Option Bytes) × r.State
  seal_dummy dummy_cell s =
      let (throwaway_key, s1) = r.fill_bytes 32 s in
      let (encrypted, s2) = encrypt_cell r c throwaway_key dummy_cell s1 in
      elim encrypted [
        | none ↦ (none, s2)
        | some (err _) ↦ (some none, s2)
        | some (ok sealed) ↦
            (let (fake_sender_bytes, s3) = r.fill_bytes 32 s2 in
              (some (some (wrap r c (c.public_from_bytes fake_sender_bytes) sealed)), s3))
      ]

  module _ (N IoError : Type 0) (send_to : Bytes → Bytes → N → Result IoError (Unit {0}) × N) where
    -- The frame goes to `path[0]`, and whether it arrives is ignored.
    unfoldable pub send_first : List (RelayInfo r c) → Bytes → r.State → N → Option (r.State × N)
    send_first [] onion s n = none
    send_first (first ∷ rest) onion s n = some (s, (send_to first.address onion n).1)

    unfoldable pub route_dummy : List (RelayInfo r c) → Bytes → r.State → N → Option (r.State × N)
    unfolding send_first
    route_dummy path enveloped s n =
        let (built, s') = build_circuit r c path enveloped s in
        elim built [ err _ ↦ some (s', n) | ok onion ↦ send_first path onion s' n ]

    -- What follows the dummy cell in a round.
    unfoldable pub send_dummy : Topology r c → ℕ → Cell → r.State → N → Option (r.State × N)
    unfolding seal_dummy route_dummy
    send_dummy topology hop_count dummy_cell s n =
        let (sealed, s1) = seal_dummy dummy_cell s in
        elim sealed [
          | none ↦ none
          | some none ↦ some (s1, n)
          | some (some enveloped) ↦
              (let (selected, s2) = select_diverse_path r c topology hop_count s1 in
                elim selected [ err _ ↦ some (s2, n) | ok path ↦ route_dummy path enveloped s2 n ])
        ]

    -- A round of the loop; `none` is a panic, which ends the task.
    unfoldable pub cover_round :
        Topology r c → ℕ → DummyTrafficGenerator → r.State → N → Option (r.State × N)
    unfolding send_dummy
    cover_round topology hop_count generator s n =
        Option.bind (next_dummy r generator s)
          (λ ((delay, dummy_cell), s1). send_dummy topology hop_count dummy_cell s1 n)

    -- `VeilClient::spawn_cover_traffic`, which starts the loop with the topology and the hops of the
    -- client.
    abbrev pub client_cover_round : VeilClient r c → ℕ → ℕ → r.State → N → Option (r.State × N)
    client_cover_round client min_interval max_interval =
        cover_round client.topology client.hop_count
          (record { min_interval = min_interval; max_interval = max_interval })

    -- So many rounds of the loop.
    unfoldable pub cover_rounds :
        ℕ → Topology r c → ℕ → DummyTrafficGenerator → r.State → N → Option (r.State × N)
    unfolding cover_round
    cover_rounds zero topology hop_count generator s n = some (s, n)
    cover_rounds (suc rounds) topology hop_count generator s n =
        Option.bind (cover_round topology hop_count generator s n)
          (λ (s', n'). cover_rounds rounds topology hop_count generator s' n')

    -- The task that `spawn` starts, aborted behind so many rounds.
    unfoldable pub spawn : ℕ → Topology r c → ℕ → ℕ → ℕ → r.State → N → Option (r.State × N)
    unfolding cover_rounds
    spawn rounds topology hop_count min_interval max_interval =
        cover_rounds rounds topology hop_count (new_generator min_interval max_interval)
