-- ===== src/Sdk/Delivery/Fabric/Runs.antt =====
-- Runs of the relays: whatever their order, nothing that is on its way is lost, kept twice or held up.
use orf_veil.Prelude.{
  ℕ, suc, ◌+◌, ◌≡◌, refl, ap, sym, ◌∙◌, arith, inl, inr, List, [], ◌∷◌, ◌++◌, length, drop,
  drop-append_length, All, All-append, All-middle,
}
use orf_veil.Prelude.Bytes.{Bytes}
use orf_veil.Prelude.Perms.{Permᴰ-taken, Permᴰ-moved, Permᴰ-inside}
use orf_veil.External.Random.{Rng}
use orf_veil.External.Crypto.{Crypto}
use orf_veil.Core.Crypto.Keys.{KeyPair}
use orf_veil.Relay.Node.{Dialer, RelayNode}
use orf_veil.Relay.Node.Hop.{Works, IsPooled}
use orf_veil.Sdk.Delivery.Travelling.{Handed}
use orf_veil.Sdk.Delivery.Fabric.{
  Fabric, kept, served, resume, kept-append, served-middle, FabricStep, handle, FabricRun, stay,
  go_on,
}
use orf_veil.Sdk.Delivery.Fabric.Owed.{Owed, Owed-append, SplitAt, Owed-split}
use orf_veil.Sdk.Delivery.Fabric.Moves.{Moved, OnItsWay-Handled}
use mathlib.Core.List.{Permᴰ, append-nil}
use mathlib.Core.List.Permᴰ
use mathlib.Core.Path.{subst}

module _ (d : Dialer) (w : Works d) (r : Rng) (c : Crypto r) (keypair_at : Bytes → KeyPair r c)
    (addrs : List Bytes) where
  -- The frames in flight are on their way as the bodies, the pools are right, and the relays run at
  -- the addresses.
  pub record IsFlowing (f : Fabric d) (bodies : List Bytes) (hops : ℕ) : Type 0 where
    pub owed : Owed r c keypair_at addrs f.in_flight bodies hops
    pub pooled : All (λ e. IsPooled d w e.1.outbound.pool) f.relays
    pub running : served d f.relays ≡ addrs

  -- One step keeps what is delivered together with what is on its way, and uses up one hop.
  abbrev pub Flows : Fabric d → Fabric d → List Bytes → ℕ → Type 0
  Flows f g bodies hops =
      (left : ℕ) × (rest : List Bytes) × (hops ≡ suc left)
      × IsFlowing g rest left
      × Permᴰ (kept d g.relays ++ rest) (kept d f.relays ++ bodies)

  drop-sent : (xs ys zs : List Handed) → ys ≡ xs ++ zs → drop (length xs) ys ≡ zs
  drop-sent xs ys zs e = ap (drop (length xs)) e ∙ drop-append_length (length xs) xs zs refl

  module _ (early late : List Handed) (addr frame : Bytes)
      (before after : List (Bytes × RelayNode d)) (node node' : RelayNode d)
      (network : d.State) where
    abbrev old : Fabric d
    old = record {
      network = network;
      in_flight = early ++ ((addr, frame) ∷ late);
      relays = before ++ ((addr, node) ∷ after);
    }

    abbrev written : List Handed
    written = drop (length (w.sent network)) (w.sent node'.outbound.network)

    abbrev next : Fabric d
    next = record {
      network = node'.outbound.network;
      in_flight = (early ++ late) ++ written;
      relays = before ++ ((addr, node') ∷ after);
    }

    kept_same : node'.delivered ≡ node.delivered → kept d next.relays ≡ kept d old.relays
    unfolding kept
    kept_same e =
        kept-append d before ((addr, node') ∷ after)
        ∙ ap (λ l. kept d before ++ (l ++ kept d after)) e
        ∙ sym (kept-append d before ((addr, node) ∷ after))

    kept_more :
        (body : Bytes)
        → node'.delivered ≡ node.delivered ++ (body ∷ [])
        → Permᴰ (kept d next.relays) (body ∷ kept d old.relays)
    unfolding kept
    kept_more body e =
        rw
          (
            kept-append d before ((addr, node') ∷ after),
            kept-append d before ((addr, node) ∷ after),
            e,
          )
          (Permᴰ-inside (kept d before) node.delivered (kept d after) body)

    module _ (bodies : List Bytes) (hops : ℕ)
        (s : SplitAt r c keypair_at addrs early late (addr, frame) bodies hops)
        (pooled : All (λ e. IsPooled d w e.1.outbound.pool) next.relays)
        (running : served d next.relays ≡ addrs) where
      merged : Owed r c keypair_at addrs (early ++ late) (s.sooner ++ s.later) (s.before + s.behind)
      merged =
          Owed-append r c keypair_at addrs early late s.sooner s.later s.before s.behind
            s.owed_before s.owed_behind

      Moved-Flows :
          Moved d w r c keypair_at addrs s.body s.here (resume d network node) node'
          → Flows old next bodies hops
      Moved-Flows (inl (last, more, same)) =
          let nothing : written ≡ [] =
            drop-sent (w.sent network) (w.sent node'.outbound.network) []
              (same ∙ sym (append-nil (w.sent network))) in
          (
            s.before + s.behind,
            s.sooner ++ s.later,
            omega (arith, s.total, last),
            record {
              owed = rw (nothing, append-nil (early ++ late)) merged;
              pooled = pooled;
              running = running;
            },
            rw s.split (
                Permᴰ-taken (kept d next.relays) (kept d old.relays) s.sooner s.later s.body
                  (kept_more s.body more)),
          )
      Moved-Flows (inr (handed, left, one, on, same, log)) =
          let new : written ≡ handed ∷ [] =
            drop-sent (w.sent network) (w.sent node'.outbound.network) (handed ∷ []) log in
          let single : Owed r c keypair_at addrs (handed ∷ []) (s.body ∷ []) left =
            (left, 0, omega arith, on, refl) in
          (
            s.before + s.behind + left,
            (s.sooner ++ s.later) ++ (s.body ∷ []),
            omega (arith, s.total, one),
            record {
              owed = rw new (
                  Owed-append r c keypair_at addrs (early ++ late) (handed ∷ [])
                    (s.sooner ++ s.later) (s.body ∷ []) (s.before + s.behind) left merged single);
              pooled = pooled;
              running = running;
            },
            rw (s.split, kept_same same) (Permᴰ-moved (kept d old.relays) s.sooner s.later s.body),
          )

  -- Any step of any relay, on frames that are on their way, brings one of them one hop further or
  -- delivers its body.
  pub FabricStep-Flows :
      {f g : Fabric d} (bodies : List Bytes) (hops : ℕ)
      → FabricStep d w r c keypair_at f g
      → IsFlowing f bodies hops
      → Flows f g bodies hops
  FabricStep-Flows bodies hops
        (handle early late addr frame before after node node' network outcome e) flow =
      let s = Owed-split r c keypair_at addrs early late (addr, frame) bodies hops flow.owed in
      let (front, here, back) =
        All-middle (λ x. IsPooled d w x.1.outbound.pool) before (addr, node) after flow.pooled in
      let (handled, e', moved, pooled) =
        OnItsWay-Handled d w r c keypair_at addrs s.body frame (resume d network node) addr s.here
          s.on_its_way here in
      let same : handled ≡ node' = ap (λ x. x.1) (sym e' ∙ e) in
      Moved-Flows early late addr frame before after node node' network bodies hops s
        (All-append (λ x. IsPooled d w x.1.outbound.pool) before ((addr, node') ∷ after) front
          (subst (λ n. IsPooled d w n.outbound.pool) same pooled, back))
        (served-middle d before after addr node node' ∙ flow.running)
        (subst (λ n. Moved d w r c keypair_at addrs s.body s.here (resume d network node) n) same
          moved)

  pub FabricRun-Flows :
      {k : ℕ} {f g : Fabric d} (bodies : List Bytes) (hops : ℕ)
      → FabricRun d w r c keypair_at k f g
      → IsFlowing f bodies hops
      → (left : ℕ) × (rest : List Bytes) × (hops ≡ k + left)
        × IsFlowing g rest left
        × Permᴰ (kept d g.relays ++ rest) (kept d f.relays ++ bodies)
  FabricRun-Flows bodies hops stay flow = (hops, bodies, omega arith, flow, Permᴰ.refl _)
  FabricRun-Flows bodies hops (go_on step run) flow =
      let (left, rest, e, flow1, p) = FabricStep-Flows bodies hops step flow in
      let (left', rest', e', flow2, p') = FabricRun-Flows rest left run flow1 in
      (left', rest', omega (arith, e, e'), flow2, Permᴰ.trans p' p)

  quiet_nothing :
      (handed : List Handed) (rest : List Bytes) (left : ℕ)
      → handed ≡ []
      → Owed r c keypair_at addrs handed rest left
      → (rest ≡ []) × (left ≡ 0)
  quiet_nothing [] [] left e o = (refl, o)
  quiet_nothing [] (b ∷ rest) left e o = elim o [ ]
  quiet_nothing (h ∷ handed) rest left e o = cc

  -- However the relays take turns, when no frame is in flight any more exactly the bodies that were on
  -- their way have been delivered, each once, next to what the relays had, and every hop was taken
  -- once.
  pub FabricRun-delivers :
      {k : ℕ} {f g : Fabric d} (bodies : List Bytes) (hops : ℕ)
      → FabricRun d w r c keypair_at k f g
      → IsFlowing f bodies hops
      → g.in_flight ≡ []
      → (k ≡ hops) × Permᴰ (kept d g.relays) (kept d f.relays ++ bodies)
  FabricRun-delivers {k} {f} {g} bodies hops run flow quiet =
      let (left, rest, e, flow', p) = FabricRun-Flows bodies hops run flow in
      let (none_left, zero_left) = quiet_nothing g.in_flight rest left quiet flow'.owed in
      let all : kept d g.relays ++ rest ≡ kept d g.relays =
        ap (λ l. kept d g.relays ++ l) none_left ∙ append-nil (kept d g.relays) in
      (omega (arith, e, zero_left), subst (λ l. Permᴰ l (kept d f.relays ++ bodies)) all p)
