-- ===== src/Sdk/Delivery/EndToEnd.antt =====
-- From `send` to `poll`: the message that is sent is the message that is polled.
use orf_veil.Prelude.{◌≡◌, refl, ap, sym, ◌∙◌, List, [], ◌∷◌, ◌++◌, Option, none, some, All}
use orf_veil.Prelude.Bytes.{Bytes}
use orf_veil.Prelude.Map.{lookup}
use orf_veil.Prelude.Result.{ok, err}
use orf_veil.External.Random.{Rng, RngLaws}
use orf_veil.External.Crypto.{Crypto, CryptoLaws}
use orf_veil.Core.Cell.{Cell, MessageId}
use orf_veil.Core.Crypto.Keys.{KeyPair}
use orf_veil.Core.Fragmentation.Laws.{IsFragmentation}
use orf_veil.Core.Reassembly.Invariant
use orf_veil.Routing.Topology.{RelayInfo}
use orf_veil.Sdk.Client.{VeilClient}
use orf_veil.Sdk.Receiver.{
  Network, Receiver, Received, push_some, receive_rest, receive_pulled, receive, poll,
}
use orf_veil.Sdk.Receiver.Opening.{opened_cell, opened_cells, open_all_total}
use orf_veil.Sdk.Receiver.Polling.{Includes, poll-message}
use orf_veil.Sdk.Delivery.Sending.{Carried, AllCarried, carry}
use orf_veil.Sdk.Delivery.Sending
use orf_veil.Sdk.Delivery.Travelling.{Handed}
use orf_veil.Sdk.Delivery.Arrival.{IsForeign, OpenTo, opened_arrived}
use mathlib.Core.List.{Permᴰ}

-- The envelopes that the mailboxes hold, pulled one after the other without an error.
pub data Pulled (net : Network) : List Bytes → net.State → List Bytes → Type 0 where
  pulled_all : {n : net.State} → Pulled net [] n []
  pulled :
      {addr : Bytes} {addrs raws more : List Bytes} {n n' : net.State}
      → net.pull addr n ≡ (ok raws, n')
      → Pulled net addrs n' more
      → Pulled net (addr ∷ addrs) n (raws ++ more)

module _ (r : Rng) (c : Crypto r) where
  pub push_some-append :
      (o : Option Cell) (xs ys : List Cell) → push_some r c o (xs ++ ys) ≡ push_some r c o xs ++ ys
  unfolding push_some
  push_some-append none xs ys = refl
  push_some-append (some x) xs ys = refl

  pub opened_cells-append :
      (identity : KeyPair r c) (xs ys : List Bytes)
      → opened_cells r c identity (xs ++ ys)
        ≡ opened_cells r c identity xs ++ opened_cells r c identity ys
  unfolding opened_cells
  opened_cells-append identity [] ys = refl
  opened_cells-append identity (x ∷ xs) ys =
      ap (push_some r c (opened_cell r c identity x)) (opened_cells-append identity xs ys)
      ∙ push_some-append (opened_cell r c identity x) (opened_cells r c identity xs)
          (opened_cells r c identity ys)

  receive_rest_ok :
      (net : Network) (cells more : List Cell) (rest : Received r c net)
      → rest.0 ≡ some (ok more)
      → (receive_rest r c net cells rest).0 ≡ some (ok (cells ++ more))
  unfolding receive_rest
  receive_rest_ok net cells more (none, n) e = cc
  receive_rest_ok net cells more (some (err x), n) e = cc
  receive_rest_ok net cells more (some (ok got), n) e =
      let same : got ≡ more = cc in ap (λ l. some (ok (cells ++ l))) same

  -- What is received consists of the cells of all the envelopes.
  pub receive-Pulled :
      RngLaws r
      → CryptoLaws r c
      → (net : Network) (identity : KeyPair r c) {addrs : List Bytes} {n : net.State}
        {arrived : List Bytes}
      → Pulled net addrs n arrived
      → (receive r c net identity addrs n).0 ≡ some (ok (opened_cells r c identity arrived))
  unfolding receive receive_pulled opened_cells
  receive-Pulled rng laws net identity pulled_all = refl
  receive-Pulled rng laws net identity
        (pulled {addrs = addrs} {raws = raws} {more = more} {n' = n'} e rest) =
      rw (e, receive_pulled, open_all_total r c rng laws identity raws)
        (receive_rest_ok net (opened_cells r c identity raws) (opened_cells r c identity more)
            (receive r c net identity addrs n') (receive-Pulled rng laws net identity rest)
          ∙ ap (λ l. some (ok l)) (sym (opened_cells-append identity raws more)))

  module _ (keypair_of : RelayInfo r c → KeyPair r c) (client : VeilClient r c)
      (receiver : Receiver r c) where
    pub AllCarried-OpenTo :
        (id : MessageId) {cells : List Cell} {frames : List Handed} {envelopes : List Bytes}
        → AllCarried r c keypair_of receiver.identity client cells frames envelopes
        → OpenTo r c receiver.identity id envelopes cells
    AllCarried-OpenTo id Sending.done = tt
    AllCarried-OpenTo id (carry carried rest) = (carried.opens, AllCarried-OpenTo id rest)

    -- The cells of a fragmentation that `send` handed over as frames, to relays that peel them to the
    -- envelopes, give the message: when the mailboxes that are polled hold the envelopes, each once,
    -- in any order and among others that open to nothing or to cells of other messages, and the
    -- receiver is valid and has no entry for the id, the poll returns the message, and the receiver
    -- stays valid and has no entry for it.
    pub poll-send :
        RngLaws r
        → CryptoLaws r c
        → (net : Network) (addrs : List Bytes) (n : net.State) (id : MessageId) (message : Bytes)
          (cells : List Cell) (frames : List Handed) (envelopes others arrived : List Bytes)
        → IsFragmentation id message cells
        → AllCarried r c keypair_of receiver.identity client cells frames envelopes
        → Pulled net addrs n arrived
        → Permᴰ arrived (envelopes ++ others)
        → All (IsForeign r c receiver.identity id) others
        → Invariant.IsValid receiver.reassembler
        → lookup id receiver.reassembler.in_flight ≡ none
        → (completed : List Bytes) × (receiver' : Receiver r c) × (poll r c net receiver addrs n
            ≡ some ((ok completed, receiver'), (receive r c net receiver.identity addrs n).1))
          × Includes r c completed message
          × Invariant.IsValid receiver'.reassembler
          × (lookup id receiver'.reassembler.in_flight ≡ none)
    poll-send rng laws net addrs n id message cells frames envelopes others arrived f a pulls p o v
          q =
        poll-message r c rng laws net receiver addrs n (opened_cells r c receiver.identity arrived)
          cells id message v q (receive-Pulled rng laws net receiver.identity pulls) f
          (opened_arrived r c receiver.identity id _ arrived envelopes others cells f.numbered
            (AllCarried-OpenTo id a) o p)
