-- ===== src/Relay/Framing/Pipe.antt =====
-- Frames over a stream: what is written is read, frame by frame.
use orf_veil.Prelude.{
  ℕ, ◌<◌, ◌≤◌, ◌≡◌, refl, ap, ◌∙◌, arith, ◌++◌, [], length, length-append, get_or, take, drop,
  take-append_length, drop-append_length,
}
use orf_veil.Prelude.Bytes.{Bytes, as_u32, u32_to_be, u32_from_be-to_be}
use orf_veil.Prelude.Result.{Result, ok, err, and_then}
use orf_veil.External.Stream.{Stream, StreamLaws}
use orf_veil.Relay.Framing.{u32_of, write_frame, read_frame}
use mathlib.Core.List.{append_assoc, append-nil}

-- A number below 2 ^ 32 survives its four bytes.
pub u32_of-to_be : (n : ℕ) → n < 4294967296 → u32_of (u32_to_be (as_u32 n)) ≡ n
unfolding u32_of get_or
u32_of-to_be n h =
    let e : as_u32 n ≡ n = omega arith in u32_from_be-to_be (as_u32 n) (omega arith) ∙ e

module _ (t : Stream) (laws : StreamLaws t) where
  abbrev pub Io : Type 0 → Type 0
  Io A = Result t.IoError A × t.State

  -- Bytes that are at the front are read, and the rest stays.
  pub read_front :
      (front rest : Bytes) (s : t.State)
      → t.in_transit s ≡ front ++ rest
      → (s' : t.State) × (t.read_exact (length front) s ≡ (ok front, s')) × (t.in_transit s' ≡ rest)
  read_front front rest s e =
      let n : length front ≤ length (t.in_transit s) =
        omega (arith, ap length e, length-append front rest) in
      let (s', read, left) = laws.read_exact_ready (length front) s n in
      (
        s',
        read
            ∙ ap (λ x. (ok x, s'))
                (ap (take (length front)) e ∙ take-append_length _ front rest refl),
        left ∙ ap (drop (length front)) e ∙ drop-append_length _ front rest refl,
      )

  -- Two writes in a row append both.
  pub in_transit-writes :
      (a b : Bytes) (s s' : t.State)
      → and_then (t.write_all a s) (λ _ s1. t.write_all b s1) ≡ (ok tt, s')
      → t.in_transit s' ≡ t.in_transit s ++ (a ++ b)
  in_transit-writes a b s s' h = go (t.write_all a s) refl h
    where
      go :
          (first : Io (Unit {0}))
          → t.write_all a s ≡ first
          → and_then first (λ _ s1. t.write_all b s1) ≡ (ok tt, s')
          → t.in_transit s' ≡ t.in_transit s ++ (a ++ b)
      go (ok tt, s1) e h =
          laws.in_transit-write_all b s1 s' h
          ∙ ap (λ x. x ++ b) (laws.in_transit-write_all a s s1 e)
          ∙ append_assoc (t.in_transit s) a b
      go (err x, s1) e h = cc

  abbrev pub frame : Bytes → Bytes
  frame body = u32_to_be (as_u32 (length body)) ++ body

  pub in_transit-write_frame :
      (body : Bytes) (s s' : t.State)
      → write_frame t body s ≡ (ok tt, s')
      → t.in_transit s' ≡ t.in_transit s ++ frame body
  unfolding write_frame
  in_transit-write_frame body s s' h =
      in_transit-writes (u32_to_be (as_u32 (length body))) body s s' h

  pub read_frame_front :
      (body rest : Bytes) (s : t.State)
      → length body < 4294967296
      → t.in_transit s ≡ frame body ++ rest
      → (s' : t.State) × (read_frame t s ≡ (ok body, s')) × (t.in_transit s' ≡ rest)
  unfolding read_frame
  read_frame_front body rest s h e =
      let len = u32_to_be (as_u32 (length body)) in
      let (s1, r1, e1) = read_front len (body ++ rest) s (e ∙ append_assoc len body rest) in
      let (s2, r2, e2) = read_front body rest s1 e1 in
      (s2, rw (r1, u32_of-to_be (length body) h, r2) refl, e2)

  -- A frame of less than 2 ^ 32 bytes that is written without an error, on a stream with nothing in
  -- transit, is read back whole, and nothing is left in transit.
  pub read_frame-write_frame :
      (body : Bytes) (s s1 : t.State)
      → length body < 4294967296
      → t.in_transit s ≡ []
      → write_frame t body s ≡ (ok tt, s1)
      → (s2 : t.State) × (read_frame t s1 ≡ (ok body, s2)) × (t.in_transit s2 ≡ [])
  read_frame-write_frame body s s1 h empty w =
      let sent : t.in_transit s1 ≡ frame body ++ [] =
        rw append-nil (in_transit-write_frame body s s1 w ∙ ap (λ x. x ++ frame body) empty) in
      read_frame_front body [] s1 h sent
