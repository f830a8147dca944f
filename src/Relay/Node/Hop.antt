-- ===== src/Relay/Node/Hop.antt =====
-- A relay on a circuit: what it does with a frame that reaches along it.
use orf_veil.Prelude.{
  ◌≡◌, refl, ap, sym, ◌∙◌, inl, inr, Bool-cases, List, [], ◌∷◌, ◌++◌, Option-cases, some, All,
}
use orf_veil.Prelude.Bytes.{Bytes, bytes_eq, bytes_eq_iff}
use orf_veil.Prelude.Map.{Map, lookup, insert}
use orf_veil.Prelude.Result.{ok}
use orf_veil.External.Random.{Rng}
use orf_veil.External.Crypto.{Crypto}
use orf_veil.Relay.Node.{
  Dialer, Outbound, RelayNode, keep_connection, get_or_connect, send_on, retry, forward_frame,
  count_forwarded, handle_payload, handle_frame,
}
use orf_veil.Relay.Forwarding.{OnionPayload}
use orf_veil.Relay.Node.Pool.{forward_frame_pooled}
use orf_veil.Routing.Circuit.Peeling.{Host, Reaches}

-- A network that works: `sent` is the log of the frames with their addresses.
pub record Works (d : Dialer) : Type 0 where
  pub address_of : d.Connection → Bytes
  pub sent : d.State → List (Bytes × Bytes)
  pub connects :
      (addr : Bytes) (n : d.State)
      → (conn : d.Connection) × (n' : d.State) × (d.connect addr n ≡ (ok conn, n'))
        × (address_of conn ≡ addr)
        × (sent n' ≡ sent n)
  pub writes :
      (conn : d.Connection) (frame : Bytes) (n : d.State)
      → (n' : d.State) × (d.send_frame conn frame n ≡ (ok tt, n'))
        × (sent n' ≡ sent n ++ ((address_of conn, frame) ∷ []))

module _ (d : Dialer) (w : Works d) where
  -- Every pooled connection leads to the address of its key.
  abbrev pub IsPooled : Map d.Connection → Type 0
  IsPooled = All (λ e. w.address_of e.1 ≡ e.0)

  lookup-IsPooled :
      (addr : Bytes) (pool : Map d.Connection) (conn : d.Connection)
      → IsPooled pool
      → lookup addr pool ≡ some conn
      → w.address_of conn ≡ addr
  unfolding lookup
  lookup-IsPooled addr [] conn h e = cc
  lookup-IsPooled addr ((k, x) ∷ pool) conn h e = elim (Bool-cases (bytes_eq k addr)) [
    | inl same ↦
        let e' : some x ≡ some conn = rw same at e in
        let q : x ≡ conn = cc in sym (ap w.address_of q) ∙ h.0 ∙ (bytes_eq_iff k addr).0 same
    | inr other ↦ lookup-IsPooled addr pool conn h.1 (rw other at e)
  ]

  insert-IsPooled :
      (addr : Bytes) (conn : d.Connection) (pool : Map d.Connection)
      → w.address_of conn ≡ addr
      → IsPooled pool
      → IsPooled (insert addr conn pool)
  unfolding insert
  insert-IsPooled addr conn [] e h = (e, tt)
  insert-IsPooled addr conn ((k, x) ∷ pool) e h = elim (Bool-cases (bytes_eq k addr)) [
    | inl same ↦ rw same (e, h.1)
    | inr other ↦ rw other (h.0, insert-IsPooled addr conn pool e h.1)
  ]

  -- Over a network that works a frame is written once, to the next hop, over a pooled connection or
  -- a new one.
  forward_frame_works :
      (addr body : Bytes) (o : Outbound d)
      → IsPooled o.pool
      → (o' : Outbound d) × (forward_frame d addr body o ≡ (ok tt, o'))
        × (w.sent o'.network ≡ w.sent o.network ++ ((addr, body) ∷ []))
        × IsPooled o'.pool
  unfolding forward_frame get_or_connect keep_connection send_on retry
  forward_frame_works addr body o h = elim (Option-cases (lookup addr o.pool)) [
    | inr (conn, e) ↦
        let (n', wrote, log) = w.writes conn body o.network in
        let q = lookup-IsPooled addr o.pool conn h e in
        (
          record { pool = o.pool; network = n' },
          forward_frame_pooled d addr body o conn n' e wrote,
          log ∙ ap (λ a. w.sent o.network ++ ((a, body) ∷ [])) q,
          h,
        )
    | inl e ↦
        let (conn, n1, dialled, q, same) = w.connects addr o.network in
        let (n2, wrote, log) = w.writes conn body n1 in
        (
          record { pool = insert addr conn o.pool; network = n2 },
          rw (e, dialled, wrote, get_or_connect, keep_connection, send_on, retry) refl,
          log
              ∙ ap (λ l. l ++ ((w.address_of conn, body) ∷ [])) same
              ∙ ap (λ a. w.sent o.network ++ ((a, body) ∷ [])) q,
          insert-IsPooled addr conn o.pool q h,
        )
  ]

  module _ (r : Rng) (c : Crypto r) where
    -- The last relay keeps the body for the recipient and sends nothing; any other sends one frame
    -- to the next relay, which it reaches.
    abbrev pub Hops : Bytes → List (Host r c) → RelayNode d → RelayNode d → Type 0
    Hops body [] node node' = ⊥
    Hops body (h ∷ []) node node' =
        (node'.delivered ≡ node.delivered ++ (body ∷ []))
        × (w.sent node'.outbound.network ≡ w.sent node.outbound.network)
    Hops body (h ∷ g ∷ rest) node node' =
        (inner : Bytes) × Reaches r c body (g ∷ rest) inner
        × (node'.delivered ≡ node.delivered)
        × (w.sent node'.outbound.network
            ≡ w.sent node.outbound.network ++ ((g.info.address, inner) ∷ []))

    -- A relay on a circuit, over a network that works, handles a frame that reaches along it without
    -- an error: the last relay keeps the body, and any other writes the inner frame, once, to the
    -- address of the next relay, from which that frame reaches along the rest. Its pool stays right.
    pub handle_frame-Hops :
        (h : Host r c) (rest : List (Host r c)) (body frame : Bytes) (node : RelayNode d)
        → Reaches r c body (h ∷ rest) frame
        → IsPooled node.outbound.pool
        → (node' : RelayNode d) × (handle_frame d r c h.keypair frame node ≡ (ok tt, node'))
          × Hops body (h ∷ rest) node node'
          × IsPooled node'.outbound.pool
    unfolding handle_frame handle_payload count_forwarded
    handle_frame-Hops h [] body frame node reaches pooled = (
      (handle_payload d (OnionPayload.deliver body) node).1,
      rw (reaches, handle_frame) refl,
      (refl, refl),
      pooled,
    )
    handle_frame-Hops h (g ∷ rest) body frame node (inner, peels, reaches) pooled =
        let (o', e, log, pooled') = forward_frame_works g.info.address inner node.outbound pooled in
        (
          (count_forwarded d node (ok tt, o')).1,
          rw (peels, handle_frame, e, handle_payload, count_forwarded) refl,
          (inner, reaches, refl, log),
          pooled',
        )
