-- ===== src/Sdk/Client/Total.antt =====
-- `VeilClient::send` does not panic.
use orf_veil.Prelude.{
  ◌≡◌, ◌<◌, ◌≤◌, ap, arith, ◌==◌, leb, Bool-cases, length, All, refl, inl, inr, List, [], ◌∷◌, none,
  some, Option-cases,
}
use orf_veil.Prelude.Bytes.{Bytes, IsByte}
use orf_veil.Prelude.Result.{Result, ok, err, ◌>>=◌, Result-cases}
use orf_veil.External.Random.{Rng, RngLaws}
use orf_veil.External.Crypto.{Crypto, CryptoLaws}
use orf_veil.Core.Error.{VeilError}
use orf_veil.Core.Cell.Valid.{IsValid}
use orf_veil.Core.Crypto.Encryption.{decrypt_cell-encrypt_cell}
use orf_veil.Core.Fragmentation.{max_message_size}
use orf_veil.Core.Fragmentation.Laws.{fragment_message_ok, fragment_message_err}
use orf_veil.Sdk.Envelope.{wrap}
use orf_veil.Core.Cell.{Cell}
use orf_veil.Core.Fragmentation.{fragment_message}
use orf_veil.Routing.Circuit.{empty_path, path_selection, build_circuit, split_last}
use orf_veil.Routing.PathSelection.{select_diverse_path}
use orf_veil.Routing.Topology.{RelayInfo}
use orf_veil.Sdk.Session.{Session, session_public_key}
use orf_veil.Sdk.Client.{
  VeilClient, ClientError, SentCircuit, core, routing, io, Sends, ends, transmit, route, seal_cell,
  send_cell, after_cell, send_loop, send,
}

module _ (r : Rng) (c : Crypto r) (N IoError : Type 0)
    (send_to : Bytes → Bytes → N → Result IoError (Unit {0}) × N) where
  abbrev pub Ends : {A : Type 0} → Sends r c N IoError send_to A → Type 0
  Ends {A} o = (out : _) × (o ≡ some out)

  split_last-some :
      (x : RelayInfo r c) (xs : List (RelayInfo r c)) → (p : _) × (split_last r c (x ∷ xs) ≡ some p)
  unfolding split_last
  split_last-some x xs = elim (Option-cases (split_last r c xs)) [
    | inl e ↦ ((x, []), rw (e, split_last) refl)
    | inr ((exit, inner), e) ↦ ((exit, x ∷ inner), rw (e, split_last) refl)
  ]

  pub ends-address :
      (x : RelayInfo r c) (xs : List (RelayInfo r c))
      → (id : Bytes) × (ends r c N IoError send_to (x ∷ xs) ≡ some (x.address, id))
  unfolding ends
  ends-address x xs = let ((exit, inner), e) = split_last-some x xs in (exit.id, rw (e, ends) refl)

  transmit_total :
      (onion : Bytes) (p : Bytes × Bytes) (s : r.State) (n : N)
      → Ends (transmit r c N IoError send_to onion (some p) s n)
  unfolding transmit
  transmit_total onion (first, exit) s n = elim (Result-cases (send_to first onion n).0) [
    | inl (u, e) ↦ (
      (ok (record { exit_relay_id = exit }), (s, (send_to first onion n).1)),
      rw (e, transmit) refl,
    )
    | inr (x, e) ↦ ((err (io x), (s, (send_to first onion n).1)), rw (e, transmit) refl)
  ]

  -- An empty path is refused by `build_circuit`, before its first hop is asked for.
  route_total :
      (path : List (RelayInfo r c)) (enveloped : Bytes) (s : r.State) (n : N)
      → Ends (route r c N IoError send_to path enveloped s n)
  unfolding route build_circuit split_last
  route_total [] enveloped s n = ((err (routing empty_path), (s, n)), refl)
  route_total (x ∷ xs) enveloped s n =
      elim (Result-cases (build_circuit r c (x ∷ xs) enveloped s).0) [
        | inr (e, h) ↦
            ((err (routing e), ((build_circuit r c (x ∷ xs) enveloped s).1, n)), rw (h, route) refl)
        | inl (onion, h) ↦
            let (id, q) = ends-address x xs in
            let (out, t) =
              transmit_total onion (x.address, id) (build_circuit r c (x ∷ xs) enveloped s).1 n in
            (out, rw (h, q, route) t)
      ]

  module _ (rng : RngLaws r) (laws : CryptoLaws r c) where
    -- A valid cell is sealed: the sizes of all copies fit.
    seal_cell_ok :
        (session : Session r c) (cell : Cell) (s : r.State)
        → IsValid cell
        → (enveloped : Bytes) × ((seal_cell r c session cell s).0 ≡ some (ok enveloped))
    unfolding seal_cell
    seal_cell_ok session cell s v =
        let (sealed, e, _, _, _) =
          decrypt_cell-encrypt_cell r c rng laws session.cell_key cell s v in
        (wrap r c (session_public_key r c session) sealed, rw e refl)

    send_cell_total :
        (client : VeilClient r c) (session : Session r c) (cell : Cell) (s : r.State) (n : N)
        → IsValid cell
        → Ends (send_cell r c N IoError send_to client session cell s n)
    unfolding send_cell
    send_cell_total client session cell s n v =
        let s1 = (seal_cell r c session cell s).1 in
        let selection = select_diverse_path r c client.topology client.hop_count s1 in
        let (enveloped, e) = seal_cell_ok session cell s v in
        elim (Result-cases selection.0) [
          | inr (x, q) ↦
              ((err (routing (path_selection x)), (selection.1, n)), rw (e, q, send_cell) refl)
          | inl (path, q) ↦
              let (out, t) = route_total path enveloped selection.1 n in
              (out, rw (e, q, send_cell) t)
        ]

  after_cell_total :
      (rest : r.State → N → Sends r c N IoError send_to (List SentCircuit))
      (o : Sends r c N IoError send_to SentCircuit)
      → ((s : r.State) (n : N) → Ends (rest s n))
      → Ends o
      → Ends (after_cell r c N IoError send_to rest o)
  unfolding after_cell
  after_cell_total rest none h (out, e) = cc
  after_cell_total rest (some (err x, (s, n))) h e = (_, refl)
  after_cell_total rest (some (ok circuit, (s, n))) h e =
      let (out, q) = h s n in
      ((out.0 >>= λ circuits. ok (circuit ∷ circuits), out.1), rw (q, after_cell) refl)

  module _ (rng : RngLaws r) (laws : CryptoLaws r c) (client : VeilClient r c)
      (session : Session r c) where
    send_loop_total :
        (cells : List Cell) (s : r.State) (n : N)
        → All IsValid cells
        → Ends (send_loop r c N IoError send_to client session cells s n)
    unfolding send_loop
    send_loop_total [] s n v = (_, refl)
    send_loop_total (cell ∷ cells) s n v =
        after_cell_total (send_loop r c N IoError send_to client session cells)
          (send_cell r c N IoError send_to client session cell s n)
          (λ s' n'. send_loop_total cells s' n' v.1)
          (send_cell_total rng laws client session cell s n v.0)

    refused :
        (message : Bytes) (s : r.State) (n : N)
        → (x : VeilError) × ((fragment_message r message s).0 ≡ err x)
        → Ends (send r c N IoError send_to client session message s n)
    unfolding send
    refused message s n (x, e) =
        ((err (core x), ((fragment_message r message s).1, n)), rw (e, send) refl)

    -- `send` never panics, whatever the bytes of the message, the session, the topology, the number of
    -- hops and the network: it ends with the circuits or with an error. The slices and copies of the
    -- encryption fit, by the sizes of the nonce, of a cell and of the tag.
    pub send_total :
        (message : Bytes) (s : r.State) (n : N)
        → All IsByte message
        → (out : Result (ClientError IoError) (List SentCircuit) × (r.State × N)) × (send r c N
              IoError send_to client session message s n
            ≡ some out)
    unfolding send
    send_total message s n b = elim (Bool-cases (length message == 0)) [
      | inl e ↦
          let empty : length message ≡ 0 = ground (arith, e) in
          refused message s n (_, ap (λ x. x.0) (fragment_message_err r message s (inl empty)))
      | inr e ↦ elim (Bool-cases (leb (length message) max_message_size)) [
        | inr f ↦
            let long : max_message_size < length message = ground (arith, f) in
            refused message s n (_, ap (λ x. x.0) (fragment_message_err r message s (inr long)))
        | inl f ↦
            let nonempty : 0 < length message = ground (arith, e) in
            let short : length message ≤ max_message_size = ground (arith, f) in
            let (cells, run, fragmented) = fragment_message_ok r message s rng b nonempty short in
            let cut : (fragment_message r message s).0 ≡ ok cells = ap (λ x. x.0) run in
            let (out, q) =
              send_loop_total cells (fragment_message r message s).1 n fragmented.valid in
            (out, rw (cut, send) q)
      ]
    ]
