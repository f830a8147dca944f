-- ===== src/Relay/PullListener/Serving.antt =====
-- The accept loop of `serve` of crates/veil-relay/src/pull_listener.rs beside the task of the relay
-- that queues deliveries: a connection uses the mailbox in one step, so the connections come in the
-- order of these steps.
use orf_veil.Prelude.{
  ◌<◌, ◌==◌, ◌≡◌, refl, ap, sym, ◌∙◌, Bool, Bool-cases, inl, inr, false, List, [], ◌∷◌, ◌++◌,
  length, All,
}
use orf_veil.Prelude.Bytes.{Bytes, byte_at}
use orf_veil.Prelude.Result.{Result, ok, err}
use orf_veil.External.Random.{Rng}
use orf_veil.External.Crypto.{Crypto}
use orf_veil.External.Stream.{Stream, StreamLaws}
use orf_veil.Relay.Mailbox.{Mailbox, push}
use orf_veil.Relay.PullListener.{
  RelayIdentity, Served, pull_request_byte, describe_request_byte, pull_request, dispatch,
  handle_read, handle_request, pull_response,
}
use orf_veil.Relay.PullListener.Requests.{FitsFrame}
use orf_veil.Relay.PullListener.Exchange.{IsQuiet, pull_response-handle_request}
use mathlib.Core.List.{append_assoc, append-nil}

module _ (r : Rng) (c : Crypto r) (t : Stream) (identity : RelayIdentity r c) where
  -- What was read as the request is a `PULL`.
  unfoldable pub asks_pull : Result t.IoError Bytes → Bool
  asks_pull (ok request) = byte_at request 0 == pull_request_byte
  asks_pull (err e) = false

  handle_read_other :
      (request : Result t.IoError Bytes) (s : t.State) (w : Served r c t)
      → asks_pull request ≡ false
      → (handle_read r c t identity (request, s) w).1.mailbox ≡ w.mailbox
  unfolding asks_pull handle_read dispatch
  handle_read_other (err e) s w other = refl
  handle_read_other (ok request) s w other =
      elim (Bool-cases (byte_at request 0 == describe_request_byte)) [
        | inl e ↦ rw (other, e, dispatch) refl
        | inr e ↦ rw (other, e, dispatch) refl
      ]

  module _ (laws : StreamLaws t) where
    -- A run: the cells that the relay delivers, the mailbox before, what the clients that pull read, and
    -- the mailbox behind. Any other connection, with any bytes and any outcome, may come between.
    pub data Serves : List Bytes → Mailbox → List Bytes → Mailbox → Type 0 where
      stops : {m : Mailbox} → Serves [] m [] m
      delivers :
          {cell : Bytes} {cells got : List Bytes} {m m' : Mailbox}
          → Serves cells (push cell m) got m'
          → Serves (cell ∷ cells) m got m'
      ignores :
          {cells got : List Bytes} {m' : Mailbox} (w w' : Served r c t)
          (outcome : Result t.IoError (Unit {0}))
          → asks_pull (t.read_exact 1 w.to_server).0 ≡ false
          → handle_request r c t identity w ≡ (outcome, w')
          → Serves cells w'.mailbox got m'
          → Serves cells w.mailbox got m'
      answers :
          {cells got : List Bytes} {m' : Mailbox} (w w' : Served r c t) (raws : List Bytes)
          (s s' : t.State)
          → length w.mailbox.queue < 4294967296
          → All FitsFrame w.mailbox.queue
          → IsQuiet r c t laws identity w
          → pull_request t w.to_server ≡ (ok tt, s)
          → handle_request r c t identity (record w { to_server = s }) ≡ (ok tt, w')
          → pull_response t w'.to_client ≡ (ok raws, s')
          → Serves cells w'.mailbox got m'
          → Serves cells w.mailbox (raws ++ got) m'

    -- However deliveries, pulls that end well, and other connections follow each other, what the
    -- clients have read and then what is left in the mailbox is what was there and then what was
    -- delivered: no cell is lost, read twice or read out of order.
    pub Serves-once :
        {cells got : List Bytes} {m m' : Mailbox}
        → Serves cells m got m'
        → got ++ m'.queue ≡ m.queue ++ cells
    unfolding push handle_request
    Serves-once {m = m} stops = sym (append-nil m.queue)
    Serves-once {m = m} (delivers {cell = cell} {cells = cells} run) =
        Serves-once run ∙ append_assoc m.queue (cell ∷ []) cells
    Serves-once (ignores {cells = cells} w w' outcome other handled run) =
        let same : w'.mailbox ≡ w.mailbox =
          ap (λ x. x.1.mailbox) (sym handled)
          ∙ handle_read_other (t.read_exact 1 w.to_server).0 (t.read_exact 1 w.to_server).1 w
              other in
        Serves-once run ∙ ap (λ m. m.queue ++ cells) same
    Serves-once
          (answers {cells = cells} {got = got} {m' = m'} w w' raws s s' many fit quiet asked handled
            read run) =
        let (s2, read2, empty, _) =
          pull_response-handle_request r c t laws identity w w' s many fit quiet asked handled in
        let same : raws ≡ w.mailbox.queue = cc in
        append_assoc raws got m'.queue
        ∙ ap (λ l. raws ++ l) (Serves-once run ∙ ap (λ m. m.queue ++ cells) empty)
        ∙ ap (λ l. l ++ cells) same
