-- ===== src/Relay/Node/Reading/Total.antt =====
-- The loop of a connection ends when the peer has closed its side.
use orf_veil.Prelude.{
  ℕ, zero, suc, ◌+◌, ◌<◌, ◌≤◌, ◌≡◌, refl, ap, ◌∙◌, arith, ◌⊎◌, inl, inr, leb, Bool-cases, none,
  some, length, length-drop, take,
}
use orf_veil.Prelude.Bytes.{Bytes}
use orf_veil.Prelude.Result.{Result, ok, err}
use orf_veil.External.Random.{Rng}
use orf_veil.External.Crypto.{Crypto}
use orf_veil.External.Stream.{Stream, StreamLaws, ClosedLaws}
use orf_veil.Core.Crypto.Keys.{KeyPair}
use orf_veil.Relay.Framing.{u32_of}
use orf_veil.Relay.Node.{Dialer, RelayNode, handle_frame}
use orf_veil.Relay.Node.Reading.{
  read_failed, Outcome, Round, after_handled, after_frame, after_length, next_round, read_loop,
}
use mathlib.Core.Path.{subst}

module _ (t : Stream) (laws : StreamLaws t) (closed : ClosedLaws t) (d : Dialer) (r : Rng)
    (c : Crypto r) (keypair : KeyPair r c) where
  -- On a closed stream: enough bytes are there and are taken, or the read is an error.
  abbrev TakesOrFails : ℕ → t.State → Type 0
  TakesOrFails n s =
      ((buf : Bytes) × (s' : t.State) × (t.read_exact n s ≡ (ok buf, s'))
        × closed.IsClosed s'
        × (n + length (t.in_transit s') ≡ length (t.in_transit s)))
      ⊎ ((e : t.IoError) × (s' : t.State) × (t.read_exact n s ≡ (err e, s')))

  read_exact-TakesOrFails : (n : ℕ) (s : t.State) → closed.IsClosed s → TakesOrFails n s
  read_exact-TakesOrFails n s shut = elim (Bool-cases (leb n (length (t.in_transit s)))) [
    | inl there ↦
        let fits : n ≤ length (t.in_transit s) = ground (arith, there) in
        let (s', e, left) = laws.read_exact_ready n s fits in
        inl (
          take n (t.in_transit s),
          s',
          e,
          subst (λ x. closed.IsClosed x.1) e (closed.read_exact-IsClosed n s shut),
          let l = ap length left ∙ length-drop n (t.in_transit s) in omega (arith, l, fits),
        )
    | inr short ↦
        let misses : length (t.in_transit s) < n = ground (arith, short) in
        inr (closed.read_exact_short n s shut misses)
  ]

  -- A round returns, or it leaves the stream closed, with fewer bytes.
  abbrev Shrinks : t.State → Round t d r c keypair → Type 0
  Shrinks s round =
      ((out : Outcome t d r c keypair) × (round.0 ≡ some out))
      ⊎ ((round.0 ≡ none)
          × closed.IsClosed round.1.0
          × (length (t.in_transit round.1.0) < length (t.in_transit s)))

  after_handled-Shrinks :
      (s s' : t.State) (handled : Result d.IoError (Unit {0}) × RelayNode d)
      → closed.IsClosed s'
      → length (t.in_transit s') < length (t.in_transit s)
      → Shrinks s (after_handled t d r c keypair s' handled)
  unfolding after_handled
  after_handled-Shrinks s s' (ok _, node) shut less = inr (refl, shut, less)
  after_handled-Shrinks s s' (err e, node) shut less = inl (_, refl)

  round-Shrinks :
      (s : t.State) (node : RelayNode d)
      → closed.IsClosed s
      → Shrinks s (after_length t d r c keypair node (t.read_exact 4 s))
  unfolding after_length after_frame
  round-Shrinks s node shut = elim (read_exact-TakesOrFails 4 s shut) [
    | inr (e, s1, read) ↦ rw (read, after_length) (inl (ok tt, refl))
    | inl (len_buf, s1, read, shut1, less) ↦
        elim (read_exact-TakesOrFails (u32_of len_buf) s1 shut1) [
          | inr (e, s2, read2) ↦
              rw (read, after_length, read2, after_frame) (inl (err (read_failed e), refl))
          | inl (buf, s2, read2, shut2, less2) ↦
              rw (read, after_length, read2, after_frame)
                (after_handled-Shrinks s s2 (handle_frame d r c keypair buf node) shut2
                  (omega (arith, less, less2)))
        ]
  ]

  round_total :
      (fuel : ℕ) (s : t.State) (round : Round t d r c keypair)
      → Shrinks s round
      → length (t.in_transit s) < suc fuel
      → ((s' : t.State) (node' : RelayNode d)
          → closed.IsClosed s'
          → length (t.in_transit s') < fuel
          → (out : Outcome t d r c keypair × (t.State × RelayNode d)) × (read_loop t d r c keypair
                fuel s' node'
              ≡ some out))
      → (out : Outcome t d r c keypair × (t.State × RelayNode d)) × (next_round t d r c keypair
            round
            (λ s' node'. read_loop t d r c keypair fuel s' node')
          ≡ some out)
  unfolding next_round
  round_total fuel s (some out, (s', node')) shrinks enough later = ((out, (s', node')), refl)
  round_total fuel s (none, (s', node')) (inl (out, e)) enough later = cc
  round_total fuel s (none, (s', node')) (inr (e, shut, less)) enough later =
      later s' node' shut (omega (arith, less, enough))

  -- On a stream that the peer has closed the loop returns, whatever bytes are left and whatever the
  -- frames do: one more round than there are bytes is enough.
  pub read_loop_total :
      (fuel : ℕ) (s : t.State) (node : RelayNode d)
      → closed.IsClosed s
      → length (t.in_transit s) < fuel
      → (out : Outcome t d r c keypair × (t.State × RelayNode d)) × (read_loop t d r c keypair fuel
            s node
          ≡ some out)
  unfolding read_loop
  read_loop_total zero s node shut enough = absurd (omega arith)
  read_loop_total (suc fuel) s node shut enough =
      round_total fuel s (after_length t d r c keypair node (t.read_exact 4 s))
        (round-Shrinks s node shut) enough
        (λ s' node' shut' less. read_loop_total fuel s' node' shut' less)
