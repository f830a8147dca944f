-- ===== src/Sdk/Receiver/Polling.antt =====
-- What `Receiver::poll` returns.
use orf_veil.Prelude.{
  ◌≡◌, refl, ap, ◌∙◌, inl, inr, List, [], ◌∷◌, ◌++◌, Option, none, some, Bool-cases, Option-cases,
  All, All-append,
}
use orf_veil.Prelude.Bytes.{Bytes, bytes_eq}
use orf_veil.Prelude.Map.{lookup}
use orf_veil.Prelude.Result.{Result, ok, err, Result-cases}
use orf_veil.External.Random.{Rng, RngLaws}
use orf_veil.External.Crypto.{Crypto, CryptoLaws}
use orf_veil.Core.Error.{VeilResult}
use orf_veil.Core.Cell.{Cell, MessageId}
use orf_veil.Core.Cell.Valid
use orf_veil.Core.Crypto.Keys.{KeyPair}
use orf_veil.Core.Fragmentation.Laws.{IsFragmentation}
use orf_veil.Core.Reassembly.{Reassembler, insert_all}
use orf_veil.Core.Reassembly.Invariant.{IsValid, insert_cell-RunsTo}
use orf_veil.Core.Reassembly.Complete.{own, messages_for, InSequence}
use orf_veil.Core.Reassembly.Shuffled.{Finishes}
use orf_veil.Core.Reassembly.RoundTrip.{reassemble-fragments, valid-InSequence}
use orf_veil.Sdk.Receiver.{
  Network, ReceiveError, Receiver, Received, receive_rest, receive_pulled, receive, push_message,
  poll_loop, poll,
}
use orf_veil.Sdk.Receiver.Opening.{opened_cells, open_all_total, opened_cells-IsValid}
use mathlib.Core.List.{Permᴰ}
use mathlib.Core.Option
use mathlib.Core.Path.{subst}

abbrev pub Outs : Type 0
Outs = List (MessageId × VeilResult (Option Bytes))

module _ (r : Rng) (c : Crypto r) where
  -- The messages among the results.
  unfoldable pub completed_of : Outs → List Bytes
  completed_of [] = []
  completed_of ((id, out) ∷ outs) = push_message r c out (completed_of outs)

  abbrev pub Includes : List Bytes → Bytes → Type 0
  Includes completed message =
      (before after : List Bytes) × (completed ≡ before ++ (message ∷ after))

  pub Includes-completed_of :
      (id : MessageId) (outs : Outs) (message : Bytes) (rest : List Bytes)
      → messages_for id outs ≡ message ∷ rest
      → Includes (completed_of outs) message
  unfolding messages_for completed_of push_message
  Includes-completed_of id [] message rest h = cc
  Includes-completed_of id ((j, ok none) ∷ outs) message rest h =
      Includes-completed_of id outs message rest h
  Includes-completed_of id ((j, err e) ∷ outs) message rest h =
      Includes-completed_of id outs message rest h
  Includes-completed_of id ((j, ok (some m)) ∷ outs) message rest h =
      elim (Bool-cases (bytes_eq j id)) [
        | inl mine ↦
            let h' : m ∷ messages_for id outs ≡ message ∷ rest = rw (mine, messages_for) at h in
            let q : m ≡ message = cc in ([], completed_of outs, ap (λ x. x ∷ completed_of outs) q)
        | inr other ↦
            let h' : messages_for id outs ≡ message ∷ rest = rw (other, messages_for) at h in
            let (before, after, e) = Includes-completed_of id outs message rest h' in
            (m ∷ before, after, ap (◌∷◌ m) e)
      ]

  -- From a valid reassembler the loop does not panic, and does what inserting the cells does.
  pub poll_loop-insert_all :
      (cells : List Cell) (s : Reassembler)
      → IsValid s
      → All InSequence cells
      → (outs : Outs) × (s' : Reassembler) × (insert_all cells s ≡ some (outs, s'))
        × (poll_loop r c cells s ≡ some (completed_of outs, s'))
        × IsValid s'
  unfolding insert_all poll_loop completed_of Option.bind
  poll_loop-insert_all [] s v q = ([], s, refl, refl, v)
  poll_loop-insert_all (cell ∷ cells) s v q =
      let (out, s1, run, v1, frame) = insert_cell-RunsTo cell s v q.0 in
      let (outs, s2, all, loop, v2) = poll_loop-insert_all cells s1 v1 q.1 in
      ((cell.message_id, out) ∷ outs, s2, rw (run, all) refl, rw (run, loop) refl, v2)

  pub poll_loop-Finishes :
      (id : MessageId) (cells : List Cell) (s : Reassembler) (message : Bytes)
      → IsValid s
      → All InSequence cells
      → Finishes id cells s (message ∷ [])
      → (completed : List Bytes) × (s' : Reassembler) × (poll_loop r c cells s
          ≡ some (completed, s'))
        × Includes completed message
        × IsValid s'
        × (lookup id s'.in_flight ≡ none)
  poll_loop-Finishes id cells s message v q (outs, s', run, only, v', gone) =
      let (outs2, s2, all, loop, v2) = poll_loop-insert_all cells s v q in
      let same : some (outs2, s2) ≡ some (outs, s') = cc in
      (
        completed_of outs,
        s',
        loop ∙ ap (Option.map (λ (o, t). (completed_of o, t))) same,
        Includes-completed_of id outs message [] only,
        v',
        gone,
      )

  module _ (rng : RngLaws r) (laws : CryptoLaws r c) (net : Network) where
    -- Receiving does not panic, and what is received without an error consists of valid cells.
    abbrev AreValid : Option (Result (ReceiveError net) (List Cell)) → Type 0
    AreValid none = ⊥
    AreValid (some (ok cells)) = All Valid.IsValid cells
    AreValid (some (err e)) = Unit {0}

    join-AreValid :
        (cells : List Cell) (rest : Received r c net)
        → All Valid.IsValid cells
        → AreValid rest.0
        → AreValid (receive_rest r c net cells rest).0
    unfolding receive_rest
    join-AreValid cells (some (ok more), n) v w = All-append Valid.IsValid cells more v w
    join-AreValid cells (some (err e), n) v w = tt
    join-AreValid cells (none, n) v w = elim w [ ]

    pulled-AreValid :
        (identity : KeyPair r c) (rest : net.State → Received r c net)
        (pulled : Result net.IoError (List Bytes) × net.State)
        → ((n : net.State) → AreValid (rest n).0)
        → AreValid (receive_pulled r c net identity rest pulled).0
    unfolding receive_pulled
    pulled-AreValid identity rest (ok envelopes, n') w =
        rw (open_all_total r c rng laws identity envelopes, receive_pulled)
          (join-AreValid (opened_cells r c identity envelopes) (rest n')
            (opened_cells-IsValid r c rng laws identity envelopes) (w n'))
    pulled-AreValid identity rest (err e, n') w = tt

    receive-AreValid :
        (identity : KeyPair r c) (addrs : List Bytes) (n : net.State)
        → AreValid (receive r c net identity addrs n).0
    unfolding receive
    receive-AreValid identity [] n = tt
    receive-AreValid identity (addr ∷ addrs) n =
        pulled-AreValid identity (λ n'. receive r c net identity addrs n') (net.pull addr n)
          (receive-AreValid identity addrs)

    module _ (receiver : Receiver r c) (addrs : List Bytes) (n : net.State) where
      abbrev received : Received r c net
      received = receive r c net receiver.identity addrs n

      cells-InSequence : (cells : List Cell) → received.0 ≡ some (ok cells) → All InSequence cells
      cells-InSequence cells e =
          valid-InSequence cells (subst AreValid e (receive-AreValid receiver.identity addrs n))

      -- A result of `receive` that is no panic.
      received_total : (out : Result (ReceiveError net) (List Cell)) × (received.0 ≡ some out)
      received_total = elim (Option-cases received.0) [
        | inr found ↦ found
        | inl e ↦ absurd (subst AreValid e (receive-AreValid receiver.identity addrs n))
      ]

      -- Whatever the network sends, a poll from a valid receiver does not panic; the receiver stays
      -- valid and keeps its identity.
      pub poll-IsValid :
          IsValid receiver.reassembler
          → (out : Result (ReceiveError net) (List Bytes)) × (receiver' : Receiver r c) × (poll r c
                net receiver addrs n
              ≡ some ((out, receiver'), received.1))
            × IsValid receiver'.reassembler
            × (receiver'.identity ≡ receiver.identity)
      unfolding poll
      poll-IsValid v =
          let (result, got) = received_total in
          elim (Result-cases result) [
            | inr (e, q) ↦ (err e, receiver, rw (got, q, poll) refl, v, refl)
            | inl (cells, q) ↦
                let h = got ∙ ap (λ x. some x) q in
                let (outs, s', all, loop, v') =
                  poll_loop-insert_all cells receiver.reassembler v (cells-InSequence cells h) in
                (
                  ok (completed_of outs),
                  record receiver { reassembler = s' },
                  rw (h, loop, poll) refl,
                  v',
                  refl,
                )
          ]

      -- When the cells that are received include those of a fragmented message, each once and in any
      -- order, and the receiver is valid and has no entry for it, the poll returns the message.
      pub poll-message :
          (cells fragments : List Cell) (id : MessageId) (message : Bytes)
          → IsValid receiver.reassembler
          → lookup id receiver.reassembler.in_flight ≡ none
          → received.0 ≡ some (ok cells)
          → IsFragmentation id message fragments
          → Permᴰ (own id cells) fragments
          → (completed : List Bytes) × (receiver' : Receiver r c) × (poll r c net receiver addrs n
              ≡ some ((ok completed, receiver'), received.1))
            × Includes completed message
            × IsValid receiver'.reassembler
            × (lookup id receiver'.reassembler.in_flight ≡ none)
      unfolding poll
      poll-message cells fragments id message v l h f p =
          let q = cells-InSequence cells h in
          let (completed, s', loop, incl, v', gone) =
            poll_loop-Finishes id cells receiver.reassembler message v q
              (reassemble-fragments id message fragments f cells receiver.reassembler v l q p) in
          (completed, record receiver { reassembler = s' }, rw (h, loop, poll) refl, incl, v', gone)
