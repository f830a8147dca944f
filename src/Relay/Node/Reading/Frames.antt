-- ===== src/Relay/Node/Reading/Frames.antt =====
-- The loop of a connection handles exactly the frames that the peer has written.
use orf_veil.Prelude.{
  ℕ, suc, ◌+◌, ◌<◌, ◌≡◌, refl, ap, ◌∙◌, arith, List, [], ◌∷◌, ◌++◌, some, length, All,
}
use orf_veil.Prelude.Bytes.{Bytes, as_u32, u32_to_be}
use orf_veil.Prelude.Result.{Result, ok, err, map_err, and_then}
use orf_veil.External.Random.{Rng}
use orf_veil.External.Crypto.{Crypto}
use orf_veil.External.Stream.{Stream, StreamLaws, ClosedLaws}
use orf_veil.Core.Crypto.Keys.{KeyPair}
use orf_veil.Relay.Framing.Pipe.{read_front, u32_of-to_be}
use orf_veil.Relay.PullListener.Requests.{FitsFrame, frames}
use orf_veil.Relay.Node.{Dialer, RelayNode, handle_frame, handle_connection}
use orf_veil.Relay.Node.Reading.{
  forward_failed, read_failed, after_handled, after_frame, after_length, next_round, read_loop,
}
use mathlib.Core.List.{append_assoc}
use mathlib.Core.Path.{subst}

module _ (t : Stream) (laws : StreamLaws t) (closed : ClosedLaws t) (d : Dialer) (r : Rng)
    (c : Crypto r) (keypair : KeyPair r c) where
  module _ (fuel : ℕ) (tail : Bytes) where
    -- The loop has handled the frames and goes on with the tail, or it has returned the error.
    abbrev Reads :
        List Bytes → t.State → RelayNode d → Result d.IoError (Unit {0}) × RelayNode d → Type 0
    Reads bodies s node (ok _, node') =
        (s' : t.State) × (t.in_transit s' ≡ tail)
        × closed.IsClosed s'
        × (read_loop t d r c keypair (length bodies + fuel) s node
            ≡ read_loop t d r c keypair fuel s' node')
    Reads bodies s node (err e, node') =
        (s' : t.State) × (read_loop t d r c keypair (length bodies + fuel) s node
          ≡ some (err (forward_failed e), (s', node')))

    -- A round that goes on passes the result of the other rounds on.
    Reads-later :
        (body : Bytes) (bodies : List Bytes) (s s' : t.State) (node node' : RelayNode d)
        (result : Result d.IoError (Unit {0}) × RelayNode d)
        → read_loop t d r c keypair (suc (length bodies) + fuel) s node
          ≡ read_loop t d r c keypair (length bodies + fuel) s' node'
        → Reads bodies s' node' result
        → Reads (body ∷ bodies) s node result
    Reads-later body bodies s s' node node' (ok _, last) q (s2, left, shut, e) =
        (s2, left, shut, q ∙ e)
    Reads-later body bodies s s' node node' (err x, last) q (s2, e) = (s2, q ∙ e)

    handled-Reads :
        (body : Bytes) (bodies : List Bytes) (s s' : t.State) (node : RelayNode d)
        (handled : Result d.IoError (Unit {0}) × RelayNode d)
        → after_length t d r c keypair node (t.read_exact 4 s)
          ≡ after_handled t d r c keypair s' handled
        → ((node' : RelayNode d)
            → Reads bodies s' node' (handle_connection d r c keypair bodies node'))
        → Reads
            (body ∷ bodies)
            s
            node
            (and_then handled (λ _ node'. handle_connection d r c keypair bodies node'))
    unfolding after_handled read_loop next_round
    handled-Reads body bodies s s' node (ok _, node') round later =
        let n : suc (length bodies) + fuel ≡ suc (length bodies + fuel) = omega arith in
        Reads-later body bodies s s' node node' (handle_connection d r c keypair bodies node')
          (ap (λ k. read_loop t d r c keypair k s node) n
            ∙ ap
                (λ x.
                  next_round t d r c keypair x
                    (λ s2 n2. read_loop t d r c keypair (length bodies + fuel) s2 n2))
                round)
          (later node')
    handled-Reads body bodies s s' node (err e, node') round later =
        let n : suc (length bodies) + fuel ≡ suc (length bodies + fuel) = omega arith in
        (
          s',
          ap (λ k. read_loop t d r c keypair k s node) n
              ∙ ap
                  (λ x.
                    next_round t d r c keypair x
                      (λ s2 n2. read_loop t d r c keypair (length bodies + fuel) s2 n2))
                  round,
        )

    stays_shut :
        (n : ℕ) (buf : Bytes) (s s' : t.State)
        → closed.IsClosed s
        → t.read_exact n s ≡ (ok buf, s')
        → closed.IsClosed s'
    stays_shut n buf s s' shut e =
        subst (λ x. closed.IsClosed x.1) e (closed.read_exact-IsClosed n s shut)

    handle_connection-Reads :
        (bodies : List Bytes) (s : t.State) (node : RelayNode d)
        → All FitsFrame bodies
        → t.in_transit s ≡ frames t laws bodies ++ tail
        → closed.IsClosed s
        → Reads bodies s node (handle_connection d r c keypair bodies node)
    unfolding handle_connection after_length after_frame
    handle_connection-Reads [] s node fit e shut =
        let n : 0 + fuel ≡ fuel = omega arith in
        (s, e, shut, ap (λ k. read_loop t d r c keypair k s node) n)
    handle_connection-Reads (body ∷ bodies) s node fit e shut =
        let len = u32_to_be (as_u32 (length body)) in
        let rest = frames t laws bodies ++ tail in
        let (s1, r1, e1) = read_front t laws len (body ++ rest) s (
          e
          ∙ append_assoc (len ++ body) (frames t laws bodies) tail
          ∙ append_assoc len body rest) in
        let shut1 = stays_shut _ len s s1 shut r1 in
        let (s2, r2, e2) = read_front t laws body rest s1 e1 in
        let shut2 = stays_shut _ body s1 s2 shut1 r2 in
        handled-Reads body bodies s s2 node (handle_frame d r c keypair body node)
          (rw (r1, after_length, u32_of-to_be (length body) fit.0, r2, after_frame) refl)
          (λ node'. handle_connection-Reads bodies s2 node' fit.1 e2 shut2)

  -- What the loop gives for what handling the frames gives, when it is over at the tail.
  abbrev Ends : ℕ → t.State → RelayNode d → Result d.IoError (Unit {0}) × RelayNode d → Type 0
  Ends fuel s node handled =
      (s' : t.State) × (read_loop t d r c keypair fuel s node
        ≡ some (map_err (λ e. forward_failed e) handled.0, (s', handled.1)))

  Reads-Ends :
      (fuel : ℕ) (tail : Bytes) (bodies : List Bytes) (s : t.State) (node : RelayNode d)
      (handled : Result d.IoError (Unit {0}) × RelayNode d)
      → length tail < 4
      → Reads (suc fuel) tail bodies s node handled
      → Ends (length bodies + suc fuel) s node handled
  unfolding read_loop after_length next_round
  Reads-Ends fuel tail bodies s node (ok _, node') short (s1, left, shut, e) =
      let (x, s2, read) =
        closed.read_exact_short 4 s1 shut (omega (arith, short, ap length left)) in
      (s2, e ∙ rw (read, after_length, next_round) refl)
  Reads-Ends fuel tail bodies s node (err x, node') short (s1, e) = (s1, e)

  -- When the peer has written frames of less than 2 ^ 32 bytes and closed its side, with fewer than
  -- four bytes behind the last frame, the loop on the stream does exactly what handling the frames one
  -- after the other does: the relay ends in the same state; an error of a frame is the error of the
  -- loop, and without one the loop ends well. One round more than there are frames is enough.
  pub read_loop-handle_connection :
      (fuel : ℕ) (bodies : List Bytes) (tail : Bytes) (s : t.State) (node : RelayNode d)
      → All FitsFrame bodies
      → length tail < 4
      → t.in_transit s ≡ frames t laws bodies ++ tail
      → closed.IsClosed s
      → (s' : t.State) × (read_loop t d r c keypair (length bodies + suc fuel) s node
          ≡ some (
            map_err (λ e. forward_failed e) (handle_connection d r c keypair bodies node).0,
            (s', (handle_connection d r c keypair bodies node).1),
          ))
  read_loop-handle_connection fuel bodies tail s node fit short e shut =
      Reads-Ends fuel tail bodies s node (handle_connection d r c keypair bodies node) short
        (handle_connection-Reads (suc fuel) tail bodies s node fit e shut)

  -- When the peer has written frames of less than 2 ^ 32 bytes, which are all handled without an error,
  -- and closed its side within a frame, behind its length, the loop ends with an error of the stream,
  -- and the relay has handled the whole frames and nothing else.
  pub read_loop_cut :
      (fuel n : ℕ) (bodies : List Bytes) (part : Bytes) (s : t.State) (node node' : RelayNode d)
      → All FitsFrame bodies
      → n < 4294967296
      → length part < n
      → t.in_transit s ≡ frames t laws bodies ++ (u32_to_be (as_u32 n) ++ part)
      → closed.IsClosed s
      → handle_connection d r c keypair bodies node ≡ (ok tt, node')
      → (x : t.IoError) × (s' : t.State) × (read_loop t d r c keypair
            (length bodies + suc fuel)
            s
            node
          ≡ some (err (read_failed x), (s', node')))
  unfolding read_loop after_length after_frame next_round
  read_loop_cut fuel n bodies part s node node' fit small cut e shut handled =
      let len = u32_to_be (as_u32 n) in
      let (s1, left, shut1, q) =
        subst (Reads (suc fuel) (len ++ part) bodies s node) handled
          (handle_connection-Reads (suc fuel) (len ++ part) bodies s node fit e shut) in
      let (s2, r2, e2) = read_front t laws len part s1 left in
      let shut2 = stays_shut fuel part _ len s1 s2 shut1 r2 in
      let (x, s3, r3) = closed.read_exact_short n s2 shut2 (omega (arith, cut, ap length e2)) in
      (x, s3, q ∙ rw (r2, after_length, u32_of-to_be n small, r3, after_frame, next_round) refl)
