-- ===== src/Relay/Node/Reading.antt =====
-- The loop of `RelayNode::handle_connection` of crates/veil-relay/src/node.rs on the stream of the
-- peer: it reads a length and a frame, and handles the frame.
pub mod Total
pub mod Frames
use orf_veil.Prelude.{
  ℕ, zero, suc, ◌+◌, ◌<◌, ◌≤◌, ◌≡◌, refl, ap, sym, ◌∙◌, arith, inl, inr, leb, Bool-cases, List, [],
  ◌∷◌, ◌++◌, Option, none, some, length, length-append, length-drop, All,
}
use orf_veil.Prelude.Bytes.{Bytes, as_u32, u32_to_be}
use orf_veil.Prelude.Result.{Result, Result-cases, ok, err, map_err}
use orf_veil.External.Random.{Rng}
use orf_veil.External.Crypto.{Crypto}
use orf_veil.External.Stream.{Stream, StreamLaws, ClosedLaws}
use orf_veil.Core.Crypto.Keys.{KeyPair}
use orf_veil.Relay.Framing.{u32_of}
use orf_veil.Relay.Framing.Pipe.{frame, read_front, u32_of-to_be}
use orf_veil.Relay.Node.{Dialer, RelayNode, handle_frame, handle_connection}
use mathlib.Core.List.{append_assoc}
use mathlib.Core.Path.{subst}

-- An error of the peer's stream or of a connection to the next hop: both are `RelayError::Io`.
pub data ConnectionError (t : Stream) (d : Dialer) : Type 0 where
  read_failed : t.IoError → ConnectionError t d
  forward_failed : d.IoError → ConnectionError t d

module _ (t : Stream) (d : Dialer) (r : Rng) (c : Crypto r) (keypair : KeyPair r c) where
  -- What the loop returns.
  abbrev pub Outcome : Type 0
  Outcome = Result (ConnectionError t d) (Unit {0})

  -- A round returns, or it goes on to the next round.
  abbrev pub Round : Type 0
  Round = Option Outcome × (t.State × RelayNode d)

  unfoldable pub after_handled : t.State → Result d.IoError (Unit {0}) × RelayNode d → Round
  after_handled s (ok _, node) = (none, (s, node))
  after_handled s (err e, node) = (some (err (forward_failed e)), (s, node))

  unfoldable pub after_frame : RelayNode d → Result t.IoError Bytes × t.State → Round
  unfolding after_handled
  after_frame node (ok frame, s) = after_handled s (handle_frame d r c keypair frame node)
  after_frame node (err e, s) = (some (err (read_failed e)), (s, node))

  -- A length that cannot be read is the end of the connection, without an error.
  unfoldable pub after_length : RelayNode d → Result t.IoError Bytes × t.State → Round
  unfolding after_frame
  after_length node (ok len_buf, s) = after_frame node (t.read_exact (u32_of len_buf) s)
  after_length node (err e, s) = (some (ok tt), (s, node))

  -- What the rounds after this one do, when it goes on.
  unfoldable pub next_round :
      Round
      → (t.State → RelayNode d → Option (Outcome × (t.State × RelayNode d)))
      → Option (Outcome × (t.State × RelayNode d))
  next_round (some outcome, (s, node)) rest = some (outcome, (s, node))
  next_round (none, (s, node)) rest = rest s node

  -- `handle_connection`, of which `none` is that the fuel is used up.
  unfoldable pub read_loop : ℕ → t.State → RelayNode d → Option (Outcome × (t.State × RelayNode d))
  unfolding after_length next_round
  read_loop zero s node = none
  read_loop (suc fuel) s node =
      next_round (after_length node (t.read_exact 4 s)) (λ s' node'. read_loop fuel s' node')
