-- ===== src/Sdk/Client.antt =====
-- crates/veil-sdk/src/client.rs: sending. The network is `TcpStream::connect` followed by `write_frame`
-- to the first hop, on a state that each call advances.
pub mod Total
use orf_veil.Prelude.{ℕ, List, [], ◌∷◌, Option, none, some}
use orf_veil.Prelude.Bytes.{Bytes}
use orf_veil.Prelude.Result.{Result, ok, err, ◌>>=◌}
use orf_veil.External.Random.{Rng}
use orf_veil.External.Crypto.{Crypto}
use orf_veil.Core.Error.{VeilError, VeilResult}
use orf_veil.Core.Cell.{Cell}
use orf_veil.Core.Crypto.Encryption.{encrypt_cell}
use orf_veil.Core.Fragmentation.{fragment_message}
use orf_veil.Routing.Circuit.{CircuitError, path_selection, build_circuit, split_last}
use orf_veil.Routing.PathSelection.{select_diverse_path}
use orf_veil.Routing.Topology.{RelayInfo, Topology}
use orf_veil.Sdk.Envelope.{wrap}
use orf_veil.Sdk.Session.{Session, session_public_key}
use mathlib.Core.Option

pub data ClientError (IoError : Type 0) : Type 0 where
  core : VeilError → ClientError IoError
  routing : CircuitError → ClientError IoError
  io : IoError → ClientError IoError

pub record SentCircuit : Type 0 where
  pub exit_relay_id : Bytes

pub record VeilClient (r : Rng) (c : Crypto r) : Type 0 where
  pub topology : Topology r c
  pub hop_count : ℕ

module _ (r : Rng) (c : Crypto r) where
  -- `VeilClient::new`
  abbrev pub new_client : Topology r c → ℕ → VeilClient r c
  new_client topology hop_count = record { topology = topology; hop_count = hop_count }

  -- The encryption of the cell and the envelope around it; `none` is a panic.
  unfoldable pub seal_cell : Session r c → Cell → r.State → Option (VeilResult Bytes) × r.State
  seal_cell session cell s =
      let (sealed, s') = encrypt_cell r c session.cell_key cell s in
      (
        Option.map
            (λ result.
              result >>= λ encrypted. ok (wrap r c (session_public_key r c session) encrypted))
            sealed,
        s',
      )

  module _ (N IoError : Type 0) (send_to : Bytes → Bytes → N → Result IoError (Unit {0}) × N) where
    -- A result beside the generator and the network; `none` is a panic.
    abbrev pub Sends : Type 0 → Type 0
    Sends A = Option (Result (ClientError IoError) A × (r.State × N))

    -- The first hop and the exit of a path: `path[0]` and `path.last().unwrap()`.
    unfoldable pub ends : List (RelayInfo r c) → Option (Bytes × Bytes)
    unfolding split_last
    ends [] = none
    ends (first ∷ rest) = elim (split_last r c (first ∷ rest)) [
      | none ↦ none
      | some (exit, _) ↦ some (first.address, exit.id)
    ]

    -- The frame goes to the first hop.
    unfoldable pub transmit : Bytes → Option (Bytes × Bytes) → r.State → N → Sends SentCircuit
    transmit onion none s n = none
    transmit onion (some (first_hop_addr, exit_relay_id)) s n =
        let (sent, n') = send_to first_hop_addr onion n in
        elim sent [
          | err e ↦ some (err (io e), (s, n'))
          | ok _ ↦ some (ok (record { exit_relay_id = exit_relay_id }), (s, n'))
        ]

    -- The onion around an envelope for a path.
    unfoldable pub route : List (RelayInfo r c) → Bytes → r.State → N → Sends SentCircuit
    unfolding ends transmit
    route path enveloped s n =
        let (built, s') = build_circuit r c path enveloped s in
        elim built [
          | err e ↦ some (err (routing e), (s', n))
          | ok onion ↦ transmit onion (ends path) s' n
        ]

    -- The body of the loop of `send`.
    unfoldable pub send_cell : VeilClient r c → Session r c → Cell → r.State → N → Sends SentCircuit
    unfolding route
    send_cell client session cell s n =
        let (sealed, s1) = seal_cell session cell s in
        elim sealed [
          | none ↦ none
          | some (err e) ↦ some (err (core e), (s1, n))
          | some (ok enveloped) ↦
              (let (selected, s2) = select_diverse_path r c client.topology client.hop_count s1 in
                elim selected [
                  | err e ↦ some (err (routing (path_selection e)), (s2, n))
                  | ok path ↦ route path enveloped s2 n
                ])
        ]

    -- What follows a cell in the loop: its error ends `send`.
    unfoldable pub after_cell :
        (r.State → N → Sends (List SentCircuit)) → Sends SentCircuit → Sends (List SentCircuit)
    after_cell rest none = none
    after_cell rest (some (err e, (s, n))) = some (err e, (s, n))
    after_cell rest (some (ok circuit, (s, n))) = elim (rest s n) [
      | none ↦ none
      | some (sent, w) ↦ some (sent >>= λ circuits. ok (circuit ∷ circuits), w)
    ]

    -- The loop of `send` over the cells.
    unfoldable pub send_loop :
        VeilClient r c → Session r c → List Cell → r.State → N → Sends (List SentCircuit)
    unfolding send_cell after_cell
    send_loop client session [] s n = some (ok [], (s, n))
    send_loop client session (cell ∷ cells) s n =
        after_cell (send_loop client session cells) (send_cell client session cell s n)

    -- `VeilClient::send`
    unfoldable pub send :
        VeilClient r c → Session r c → Bytes → r.State → N → Sends (List SentCircuit)
    unfolding send_loop
    send client session message s n =
        let (fragments, s') = fragment_message r message s in
        elim fragments [
          | err e ↦ some (err (core e), (s', n))
          | ok cells ↦ send_loop client session cells s' n
        ]
