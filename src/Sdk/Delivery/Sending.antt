-- ===== src/Sdk/Delivery/Sending.antt =====
-- What `send` hands to a network that takes every frame.
use orf_veil.Prelude.{
  ◌≤◌, ◌<◌, ◌≡◌, refl, ap, sym, ◌∙◌, List, [], ◌∷◌, ◌++◌, Option, some, length, All,
}
use orf_veil.Prelude.Bytes.{Bytes, IsByte}
use orf_veil.Prelude.Result.{Result, ok}
use orf_veil.External.Random.{Rng, RngLaws}
use orf_veil.External.Crypto.{Crypto, CryptoLaws}
use orf_veil.Core.Cell.{Cell}
use orf_veil.Core.Cell.Valid.{IsValid}
use orf_veil.Core.Crypto.Keys.{KeyPair}
use orf_veil.Core.Fragmentation.{max_message_size, fragment_message}
use orf_veil.Core.Fragmentation.Laws.{IsFragmentation, fragment_message_ok}
use orf_veil.Routing.Topology.{RelayInfo}
use orf_veil.Routing.Circuit.{build_circuit}
use orf_veil.Routing.PathSelection.{select_diverse_path}
use orf_veil.Sdk.Session.{Session, IsSharedWith}
use orf_veil.Sdk.Client.{
  VeilClient, ClientError, SentCircuit, transmit, route, seal_cell, send_cell, after_cell,
  send_loop, send,
}
use orf_veil.Sdk.Client.Total.{ends-address}
use orf_veil.Sdk.Receiver.{open_envelope}
use orf_veil.Sdk.Receiver.Opening.{open_envelope-seal_cell}
use orf_veil.Sdk.Delivery.Travelling.{Handed, Travels, IsReady, envelope-Builds}
use mathlib.Core.List.{append_assoc, append-nil}

module _ (r : Rng) (c : Crypto r) (keypair_of : RelayInfo r c → KeyPair r c)
    (identity : KeyPair r c) where
  -- The recipient opens the envelope to the cell.
  pub record Carried (client : VeilClient r c) (cell : Cell) (handed : Handed) (envelope : Bytes)
      : Type 0 where
    pub travels : Travels r c keypair_of client handed envelope
    pub opens : open_envelope r c identity envelope ≡ some (some cell)

  -- The frames carry the cells in the envelopes, one each and in order.
  pub data AllCarried (client : VeilClient r c)
      : List Cell → List Handed → List Bytes → Type 0 where
    done : AllCarried client [] [] []
    carry :
        {x : Cell} {h : Handed} {e : Bytes} {cells : List Cell} {frames : List Handed}
        {envelopes : List Bytes}
        → Carried client x h e
        → AllCarried client cells frames envelopes
        → AllCarried client (x ∷ cells) (h ∷ frames) (e ∷ envelopes)

  module _ (N IoError : Type 0) (send_to : Bytes → Bytes → N → Result IoError (Unit {0}) × N)
      (sent : N → List Handed)
      (takes : (addr frame : Bytes) (n : N)
        → ((send_to addr frame n).0 ≡ ok tt)
          × (sent (send_to addr frame n).1 ≡ sent n ++ ((addr, frame) ∷ []))) where
    -- A step of the client that ends well and hands over the frames.
    abbrev pub Hands :
        {A : Type 0}
        → Option (Result (ClientError IoError) A × (r.State × N))
        → N
        → List Handed
        → Type 0
    Hands {A} o n frames =
        (a : A) × (s' : r.State) × (n' : N) × (o ≡ some (ok a, (s', n')))
        × (sent n' ≡ sent n ++ frames)

    transmit-Hands :
        (addr frame id : Bytes) (s : r.State) (n : N)
        → Hands (transmit r c N IoError send_to frame (some (addr, id)) s n) n ((addr, frame) ∷ [])
    unfolding transmit
    transmit-Hands addr frame id s n =
        let (e, log) = takes addr frame n in
        (record { exit_relay_id = id }, s, (send_to addr frame n).1, rw (e, transmit) refl, log)

    module _ (rng : RngLaws r) (laws : CryptoLaws r c) where
      module _ (client : VeilClient r c) (ready : IsReady r c keypair_of client)
          (session : Session r c) (shared : IsSharedWith r c identity session) where
        send_cell-Carried :
            (cell : Cell) (s : r.State) (n : N)
            → IsValid cell
            → (handed : Handed) × (envelope : Bytes) × Hands
                (send_cell r c N IoError send_to client session cell s n)
                n
                (handed ∷ [])
              × Carried client cell handed envelope
        unfolding send_cell route
        send_cell-Carried cell s n v =
            let (envelope, sealed, size, opens, b) =
              open_envelope-seal_cell r c rng laws identity session cell s shared v in
            let s1 = (seal_cell r c session cell s).1 in
            let (x, xs, frame, selected, built, travels) =
              envelope-Builds r c keypair_of rng laws client ready envelope s1 size b in
            let s2 = (select_diverse_path r c client.topology client.hop_count s1).1 in
            let (id, e) = ends-address r c N IoError send_to x xs in
            let (circuit, s', n', run, log) =
              transmit-Hands x.address frame id (build_circuit r c (x ∷ xs) envelope s2).1 n in
            (
              (x.address, frame),
              envelope,
              (circuit, s', n', rw (sealed, selected, built, e, send_cell, route) run, log),
              record { travels = travels; opens = opens },
            )

        send_loop-AllCarried :
            (cells : List Cell) (s : r.State) (n : N)
            → All IsValid cells
            → (frames : List Handed) × (envelopes : List Bytes) × Hands
                (send_loop r c N IoError send_to client session cells s n)
                n
                frames
              × AllCarried client cells frames envelopes
        unfolding send_loop
        send_loop-AllCarried [] s n v = ([], [], ([], s, n, refl, sym (append-nil (sent n))), done)
        send_loop-AllCarried (cell ∷ cells) s n v =
            let (handed, envelope, (circuit, s1, n1, run, log), carried) =
              send_cell-Carried cell s n v.0 in
            let (frames, envelopes, (circuits, s2, n2, more, logs), all) =
              send_loop-AllCarried cells s1 n1 v.1 in
            (
              handed ∷ frames,
              envelope ∷ envelopes,
              (
                circuit ∷ circuits,
                s2,
                n2,
                rw (run, after_cell, more, after_cell) refl,
                logs ∙ ap (λ l. l ++ frames) log ∙ append_assoc (sent n) (handed ∷ []) frames,
              ),
              carry carried all,
            )

        -- When the client has a positive number of hops and at least as many relays, which all run with
        -- the keys of their entries, the layers fit the cipher, the session is shared with the
        -- recipient, and the network takes every frame, `send` of a message of 1 to `max_message_size`
        -- bytes ends with the circuits. What it has handed over are frames that carry the cells of a
        -- fragmentation of the message under the id that is drawn, one each and in order: relays of
        -- the topology, as many as hops, peel each frame to an envelope that the recipient opens to
        -- the cell.
        pub send_carries :
            (message : Bytes) (s : r.State) (n : N)
            → All IsByte message
            → 0 < length message
            → length message ≤ max_message_size
            → (cells : List Cell) × (frames : List Handed) × (envelopes : List Bytes)
              × IsFragmentation (r.fill_bytes 16 s).0 message cells
              × AllCarried client cells frames envelopes
              × (circuits : List SentCircuit) × (s' : r.State) × (n' : N) × (send r c N IoError
                    send_to client session message s n
                  ≡ some (ok circuits, (s', n')))
              × (sent n' ≡ sent n ++ frames)
        unfolding send
        send_carries message s n b nonempty short =
            let (cells, run, f) = fragment_message_ok r message s rng b nonempty short in
            let (frames, envelopes, hands, all) =
              send_loop-AllCarried cells (fragment_message r message s).1 n f.valid in
            let cut : (fragment_message r message s).0 ≡ ok cells = ap (λ x. x.0) run in
            let (circuits, s', n', e, log) = hands in
            (cells, frames, envelopes, f, all, circuits, s', n', rw (cut, send) e, log)
