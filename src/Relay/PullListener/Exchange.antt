-- ===== src/Relay/PullListener/Exchange.antt =====
-- A whole exchange on the mailbox port: the request of the client, its handling by the relay, and the
-- response as the client reads it.
use orf_veil.Prelude.{ℕ, ◌<◌, ◌≡◌, refl, ap, sym, ◌∙◌, [], ◌∷◌, ◌++◌, length, All, get_or}
use orf_veil.Prelude.Result.{ok}
use orf_veil.External.Random.{Rng}
use orf_veil.External.Crypto.{Crypto, CryptoLaws}
use orf_veil.External.Stream.{Stream, StreamLaws}
use orf_veil.Relay.Framing.Pipe.{read_front}
use orf_veil.Relay.Mailbox.{new_mailbox}
use orf_veil.Relay.PullListener.{
  RelayIdentity, Served, pull_request_byte, describe_request_byte, pull_request, describe_request,
  respond_pull, respond_describe, dispatch, handle_read, handle_request, pull_response,
  describe_response,
}
use orf_veil.Relay.PullListener.Requests.{
  FitsFrame, IsDescribable, pull_response-respond_pull, describe_response-respond_describe,
}

module _ (r : Rng) (c : Crypto r) (t : Stream) (laws : StreamLaws t)
    (identity : RelayIdentity r c) where
  -- A connection on which nothing is on its way.
  pub record IsQuiet (w : Served r c t) : Type 0 where
    pub nothing_asked : t.in_transit w.to_server ≡ []
    pub nothing_answered : t.in_transit w.to_client ≡ []

  -- The relay reads the byte that the client has written, and nothing else.
  request_read :
      (byte : ℕ) (w : Served r c t) (s1 : t.State)
      → IsQuiet w
      → t.write_all (byte ∷ []) w.to_server ≡ (ok tt, s1)
      → (s2 : t.State) × (handle_request r c t identity (record w { to_server = s1 })
          ≡ dispatch r c t identity byte (record w { to_server = s2 }))
        × (t.in_transit s2 ≡ [])
  unfolding handle_request handle_read get_or
  request_read byte w s1 quiet wrote =
      let sent : t.in_transit s1 ≡ (byte ∷ []) ++ [] =
        laws.in_transit-write_all (byte ∷ []) w.to_server s1 wrote
        ∙ ap (λ x. x ++ (byte ∷ [])) quiet.nothing_asked in
      let (s2, read, left) = read_front t laws (byte ∷ []) [] s1 sent in
      (s2, rw (read, handle_read) refl, left)

  -- On a connection with nothing in transit a `PULL` that is written, and handled by the relay, without
  -- an error gives the client exactly the cells of the mailbox, in order; the mailbox is empty then, and
  -- nothing is in transit in either direction. The number of cells and their lengths are below 2 ^ 32.
  pub pull_response-handle_request :
      (w w' : Served r c t) (s1 : t.State)
      → length w.mailbox.queue < 4294967296
      → All FitsFrame w.mailbox.queue
      → IsQuiet w
      → pull_request t w.to_server ≡ (ok tt, s1)
      → handle_request r c t identity (record w { to_server = s1 }) ≡ (ok tt, w')
      → (s' : t.State) × (pull_response t w'.to_client ≡ (ok w.mailbox.queue, s'))
        × (w'.mailbox ≡ new_mailbox)
        × IsQuiet (record w' { to_client = s' })
  unfolding pull_request dispatch
  pull_response-handle_request w w' s1 many fit quiet asked handled =
      let (s2, e, left) = request_read pull_request_byte w s1 quiet asked in
      let answered = sym e ∙ handled in
      let wrote : (respond_pull t w.mailbox w.to_client).0 ≡ (ok tt, w'.to_client) =
        ap (λ x. (x.0, x.1.to_client)) answered in
      let (s', read, nothing, empty) =
        pull_response-respond_pull t laws w.mailbox w.to_client w'.to_client many fit
          quiet.nothing_answered wrote in
      (
        s',
        read,
        sym (ap (λ x. x.1.mailbox) answered) ∙ empty,
        record {
          nothing_asked = sym (ap (λ x. t.in_transit x.1.to_server) answered) ∙ left;
          nothing_answered = nothing;
        },
      )

  -- On a connection with nothing in transit a `DESCRIBE` that is written, and handled by the relay,
  -- without an error gives the client exactly the identity of the relay, whose id and address are UTF-8
  -- of less than 65536 bytes; the mailbox stays as it is, and nothing is in transit in either direction.
  pub describe_response-handle_request :
      (crypto : CryptoLaws r c) (w w' : Served r c t) (s1 : t.State)
      → IsDescribable t laws r c crypto identity
      → IsQuiet w
      → describe_request t w.to_server ≡ (ok tt, s1)
      → handle_request r c t identity (record w { to_server = s1 }) ≡ (ok tt, w')
      → (s' : t.State) × (describe_response r c t w'.to_client ≡ (ok identity, s'))
        × (w'.mailbox ≡ w.mailbox)
        × IsQuiet (record w' { to_client = s' })
  unfolding describe_request dispatch
  describe_response-handle_request crypto w w' s1 describable quiet asked handled =
      let (s2, e, left) = request_read describe_request_byte w s1 quiet asked in
      let answered = sym e ∙ handled in
      let wrote : respond_describe r c t identity w.to_client ≡ (ok tt, w'.to_client) =
        ap (λ x. (x.0, x.1.to_client)) answered in
      let (s', read, nothing) =
        describe_response-respond_describe t laws r c crypto identity w.to_client w'.to_client
          describable quiet.nothing_answered wrote in
      (
        s',
        read,
        sym (ap (λ x. x.1.mailbox) answered),
        record {
          nothing_asked = sym (ap (λ x. t.in_transit x.1.to_server) answered) ∙ left;
          nothing_answered = nothing;
        },
      )
