-- ===== src/Sdk/Receiver.antt =====
-- crates/veil-sdk/src/receiver.rs: polling of mailboxes. `pull` stands for `pull_listener::pull` on a
-- network whose state each call advances.
pub mod Opening
pub mod Polling
use orf_veil.Prelude.{ℕ, List, [], ◌∷◌, ◌++◌, Option, none, some}
use orf_veil.Prelude.Bytes.{Bytes}
use orf_veil.Prelude.Result.{Result, ok, err}
use orf_veil.External.Random.{Rng}
use orf_veil.External.Crypto.{Crypto}
use orf_veil.Core.Error.{VeilResult}
use orf_veil.Core.Cell.{Cell}
use orf_veil.Core.Reassembly
use orf_veil.Core.Reassembly.{Reassembler, insert_cell}
use orf_veil.Core.Crypto.Keys
use orf_veil.Core.Crypto.Keys.{KeyPair}
use orf_veil.Core.Crypto.Encryption.{decrypt_cell}
use orf_veil.Sdk.Envelope.{unwrap}
use orf_veil.Sdk.Session.{session_context}
use mathlib.Core.Option

-- The network, its errors, and the call that empties the mailbox at an address.
pub record Network : Type 1 where
  pub State : Type 0
  pub IoError : Type 0
  pub pull : Bytes → State → Result IoError (List Bytes) × State

pub data ReceiveError (net : Network) : Type 0 where
  io : net.IoError → ReceiveError net

pub record Receiver (r : Rng) (c : Crypto r) : Type 0 where
  pub identity : KeyPair r c
  pub reassembler : Reassembler

module _ (r : Rng) (c : Crypto r) where
  -- The body of the loop over the envelopes: `none` is a panic, and `some none` is `continue`.
  unfoldable pub open_envelope : KeyPair r c → Bytes → Option (Option Cell)
  open_envelope identity raw = elim (unwrap r c raw) [
    | none ↦ none
    | some (err _) ↦ some none
    | some (ok (sender_public, encrypted)) ↦
        elim (Keys.derive_key r c (Keys.diffie_hellman r c identity sender_public)
          session_context) [
            | err _ ↦ some none
            | ok key ↦ elim (decrypt_cell r c key encrypted) [
              | none ↦ none
              | some (err _) ↦ some none
              | some (ok cell) ↦ some (some cell)
            ]
          ]
  ]

  -- `decrypted.push(cell)`
  unfoldable pub push_some : Option Cell → List Cell → List Cell
  push_some none cells = cells
  push_some (some cell) cells = cell ∷ cells

  -- The loop over the envelopes of a mailbox.
  unfoldable pub open_all : KeyPair r c → List Bytes → Option (List Cell)
  unfolding push_some
  open_all identity [] = some []
  open_all identity (raw ∷ raws) =
      Option.bind (open_envelope identity raw)
        (λ opened. Option.map (push_some opened) (open_all identity raws))

  -- What `receive` returns beside the network; `none` is a panic.
  abbrev pub Received : Network → Type 0
  Received net = Option (Result (ReceiveError net) (List Cell)) × net.State

  -- What the other mailboxes give, behind the cells of this one.
  unfoldable pub receive_rest : (net : Network) → List Cell → Received net → Received net
  receive_rest net cells (none, n) = (none, n)
  receive_rest net cells (some (err e), n) = (some (err e), n)
  receive_rest net cells (some (ok more), n) = (some (ok (cells ++ more)), n)

  -- What follows a pull: an error, or the envelopes and then the other mailboxes.
  unfoldable pub receive_pulled :
      (net : Network)
      → KeyPair r c
      → (net.State → Received net)
      → Result net.IoError (List Bytes) × net.State
      → Received net
  unfolding open_all receive_rest
  receive_pulled net identity others (err e, n) = (some (err (io e)), n)
  receive_pulled net identity others (ok envelopes, n) = elim (open_all identity envelopes) [
    | none ↦ (none, n)
    | some cells ↦ receive_rest net cells (others n)
  ]

  -- `receive`: the first error of the network ends it.
  unfoldable pub receive : (net : Network) → KeyPair r c → List Bytes → net.State → Received net
  unfolding receive_pulled
  receive net identity [] n = (some (ok []), n)
  receive net identity (addr ∷ addrs) n =
      receive_pulled net identity (λ n'. receive net identity addrs n') (net.pull addr n)

  -- `if let Ok(Some(message)) = .. { completed.push(message) }`
  unfoldable pub push_message : VeilResult (Option Bytes) → List Bytes → List Bytes
  push_message (ok (some message)) completed = message ∷ completed
  push_message (ok none) completed = completed
  push_message (err e) completed = completed

  -- The loop of `Receiver::poll` over the cells; `none` is a panic.
  unfoldable pub poll_loop : List Cell → Reassembler → Option (List Bytes × Reassembler)
  poll_loop [] reassembler = some ([], reassembler)
  poll_loop (cell ∷ cells) reassembler =
      Option.bind (insert_cell cell reassembler) (λ (out, reassembler').
        Option.map (λ (completed, reassembler''). (push_message out completed, reassembler''))
          (poll_loop cells reassembler'))

  -- `Receiver::new`
  abbrev pub new_receiver : KeyPair r c → Receiver r c
  new_receiver identity = record { identity = identity; reassembler = Reassembly.new }

  -- `Receiver::poll`
  unfoldable pub poll :
      (net : Network)
      → Receiver r c
      → List Bytes
      → net.State
      → Option ((Result (ReceiveError net) (List Bytes) × Receiver r c) × net.State)
  poll net receiver mailbox_addrs n =
      let (received, n') = receive net receiver.identity mailbox_addrs n in
      elim received [
        | none ↦ none
        | some (err e) ↦ some ((err e, receiver), n')
        | some (ok cells) ↦
            Option.map
              (λ (completed, reassembler).
                ((ok completed, record receiver { reassembler = reassembler }), n'))
              (poll_loop cells receiver.reassembler)
      ]

  -- `Receiver::pending_count`
  abbrev pub receiver_pending_count : Receiver r c → ℕ
  receiver_pending_count receiver = Reassembly.pending_count receiver.reassembler
