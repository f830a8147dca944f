-- ===== src/Cli/Modes.antt =====
-- `run_external` and `send_and_receive` of crates/veil-cli/src/main.rs. The network is that of the client
-- and of the receiver, on one state; `none` is a panic, and the pauses are not modelled.
pub mod Sent
pub mod Printed
pub mod Text
use orf_veil.Prelude.{ℕ, List, [], ◌∷◌, ◌++◌, map, Bool, Option, none, some, min, max}
use orf_veil.Prelude.Bytes.{Bytes}
use orf_veil.Prelude.Lossy.{from_utf8_lossy}
use orf_veil.Prelude.Result.{Result, ok, err}
use orf_veil.External.Random.{Rng}
use orf_veil.External.Crypto.{Crypto}
use orf_veil.External.Text.{Hex, Json}
use orf_veil.External.Files.{Files}
use orf_veil.Core.Cell.{Cell, real_payload}
use orf_veil.Core.Crypto.Keys
use orf_veil.Core.Crypto.Keys.{KeyPair}
use orf_veil.Routing.Topology
use orf_veil.Routing.Topology.{RelayInfo, Topology}
use orf_veil.Routing.TopologyFile.{TopologyFile, load_from_file}
use orf_veil.Sdk.Session.{Session, establish}
use orf_veil.Sdk.Client.{VeilClient, SentCircuit, send, new_client}
use orf_veil.Sdk.Receiver.{Network, receive}
use orf_veil.Cli.Mailboxes.{mailbox_address_from}
use mathlib.Core.Option

-- The texts that are printed, each in Rust's debug form, or the end with status 1.
pub data Outcome : Type 0 where
  printed : List Bytes → Outcome
  nothing_decrypted : Outcome

-- `String::from_utf8_lossy(cell.payload())`
unfoldable pub delivered_text : Cell → Bytes
delivered_text cell = from_utf8_lossy (real_payload cell)

unfoldable pub report : List Cell → Outcome
unfolding delivered_text
report [] = nothing_decrypted
report (cell ∷ cells) = printed (map delivered_text (cell ∷ cells))

module _ (r : Rng) (c : Crypto r) where
  -- `topology.len().clamp(1, 3)`
  abbrev pub external_hop_count : Topology r c → ℕ
  external_hop_count topology = min (max (Topology.len r c topology) 1) 3

  -- The mailboxes of the relays.
  unfoldable pub mailbox_addrs : Bool → List (RelayInfo r c) → Option (List Bytes)
  mailbox_addrs overflow_checks [] = some []
  mailbox_addrs overflow_checks (relay ∷ relays) =
      Option.bind (mailbox_address_from overflow_checks relay.address)
        (λ addr. Option.map (λ addrs. addr ∷ addrs) (mailbox_addrs overflow_checks relays))

  module _ (net : Network)
      (send_to : Bytes → Bytes → net.State → Result net.IoError (Unit {0}) × net.State) where
    -- What follows the pause: `receive`, and the report.
    unfoldable pub receive_back :
        KeyPair r c → List Bytes → net.State → Option (Outcome × net.State)
    receive_back recipient_identity addrs n =
        let (received, n') = receive r c net recipient_identity addrs n in
        elim received [
          | none ↦ none
          | some (err _) ↦ none
          | some (ok cells) ↦ some (report cells, n')
        ]

    -- What follows the session.
    unfoldable pub send_and_report :
        VeilClient r c
        → KeyPair r c
        → Session r c
        → Bytes
        → List Bytes
        → r.State
        → net.State
        → Option (Outcome × net.State)
    send_and_report client recipient_identity session message addrs s n =
        Option.bind (send r c net.State net.IoError send_to client session message s n)
          (λ (sent, (_, n')). elim sent [
            | err _ ↦ none
            | ok _ ↦ receive_back recipient_identity addrs n'
          ])

    unfoldable pub send_and_receive :
        Topology r c → ℕ → Bytes → List Bytes → r.State → net.State → Option (Outcome × net.State)
    unfolding send_and_report
    send_and_receive topology hop_count message addrs s n =
        let (recipient_identity, s1) = Keys.generate r c s in
        let (established, s2) = establish r c (Keys.public_key r c recipient_identity) s1 in
        elim established [
          | err _ ↦ none
          | ok session ↦
              send_and_report (new_client r c topology hop_count) recipient_identity session message
                addrs s2 n
        ]

    module _ (hex : Hex) (json : Json TopologyFile) (files : Files) where
      unfoldable pub run_external :
          Bool → Bytes → Bytes → files.State → r.State → net.State → Option (Outcome × net.State)
      run_external overflow_checks topology_path message disk s n =
          elim (load_from_file r c hex json files topology_path disk) [
            | err _ ↦ none
            | ok topology ↦
                Option.bind (mailbox_addrs overflow_checks (Topology.all r c topology)) (λ addrs.
                  send_and_receive topology (external_hop_count topology) message addrs s n)
          ]
