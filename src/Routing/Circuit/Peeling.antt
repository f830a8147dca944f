-- ===== src/Routing/Circuit/Peeling.antt =====
-- A circuit seen by its relays: each peels one layer and learns the next hop, or the body.
use orf_veil.Prelude.{
  ℕ, suc, ◌+◌, ◌*◌, ◌≤◌, ◌<◌, ◌≡◌, refl, ap, sym, ◌∙◌, arith, true, List, [], ◌∷◌, ◌++◌, map, some,
  length, length-append, All,
}
use orf_veil.Prelude.Bytes.{Bytes, IsByte}
use orf_veil.Prelude.Utf8.{is_utf8}
use orf_veil.Prelude.Result.{Result, ok, and_then, from_err}
use orf_veil.External.Random.{Rng, RngLaws}
use orf_veil.External.Crypto.{Crypto, CryptoLaws, max_plaintext}
use orf_veil.Core.Crypto.Keys
use orf_veil.Core.Crypto.Keys.{KeyPair}
use orf_veil.Relay.Forwarding.{
  forward, deliver, encode_payload, build_onion_layer, peel_onion_layer,
}
use orf_veil.Relay.Forwarding.Layer.{peel_onion_layer-build_onion_layer}
use orf_veil.Routing.Topology.{RelayInfo}
use orf_veil.Routing.Circuit.{CircuitError, onion, split_last, wrap_hops, build_circuit}
use mathlib.Core.Path.{subst}

module _ (r : Rng) (c : Crypto r) where
  -- A running relay: its entry in the topology and its key pair.
  pub record Host : Type 0 where
    pub info : RelayInfo r c
    pub keypair : KeyPair r c

  -- The entry shows the public key of the pair, and the address is a string that fits a layer.
  pub record IsHost (h : Host) : Type 0 where
    pub pair : Keys.IsPair r c h.keypair
    pub published : h.info.public_key ≡ Keys.public_key r c h.keypair
    pub text : is_utf8 h.info.address ≡ true
    pub fits : length h.info.address < 65536
    pub bytes : All IsByte h.info.address

  -- The frame, handed to the first relay, is peeled by each with its own key, names the next relay's
  -- address to each but the last, and delivers the body there.
  abbrev pub Reaches : Bytes → List Host → Bytes → Type 0
  Reaches body [] frame = ⊥
  Reaches body (h ∷ []) frame = peel_onion_layer r c h.keypair frame ≡ ok (deliver body)
  Reaches body (h ∷ g ∷ rest) frame =
      (inner : Bytes) × (peel_onion_layer r c h.keypair frame ≡ ok (forward g.info.address inner))
      × Reaches body (g ∷ rest) inner

  -- A run that ends in a frame of bounded length which reaches along the relays.
  abbrev pub Carries : Bytes → List Host → ℕ → Result CircuitError Bytes × r.State → Type 0
  Carries body hosts bound run =
      (frame : Bytes) × (run.0 ≡ ok frame)
      × Reaches body hosts frame
      × All IsByte frame
      × (length frame ≤ bound)

  abbrev pub infos : List Host → List (RelayInfo r c)
  infos = map (λ h. h.info)

  split_last-append :
      (xs : List (RelayInfo r c)) (e : RelayInfo r c)
      → split_last r c (xs ++ (e ∷ [])) ≡ some (e, xs)
  unfolding split_last
  split_last-append [] e = refl
  split_last-append (x ∷ xs) e = rw (split_last-append xs e, split_last)

  -- A path that is not empty has a last relay.
  last_host :
      (hosts : List Host)
      → 0 < length hosts
      → (hs : List Host) × (e : Host) × (hosts ≡ hs ++ (e ∷ []))
  last_host [] h = elim h [ ]
  last_host (h ∷ []) _ = ([], h, refl)
  last_host (h ∷ g ∷ rest) _ =
      let (hs, e, eq) = last_host (g ∷ rest) (omega arith) in (h ∷ hs, e, ap (◌∷◌ h) eq)

  All-front : (hs : List Host) (e : Host) → All IsHost (hs ++ (e ∷ [])) → All IsHost hs × IsHost e
  All-front [] e a = (tt, a.0)
  All-front (h ∷ hs) e a = let (front, last) = All-front hs e a.1 in ((a.0, front), last)

  module _ (rng : RngLaws r) (laws : CryptoLaws r c) (body : Bytes) where
    module _ (h : Host) (is : IsHost h) where
      exit_layer :
          (s : r.State)
          → All IsByte body
          → length body + 1 ≤ max_plaintext
          → Carries body
              (h ∷ [])
              (length body + 65600)
              (from_err onion (build_onion_layer r c h.info.public_key (deliver body) s))
      unfolding encode_payload
      exit_layer s b fits =
          let (frame, e, p, n, bytes) =
            peel_onion_layer-build_onion_layer r c rng laws h.keypair is.pair (deliver body) s b
              (omega arith) in
          (frame, rw (is.published, e), p, bytes, omega arith)

      hop_layer :
          (g : Host) (rest : List Host) (bound bound' : ℕ) (s : r.State) (inner : Bytes)
          → IsHost g
          → bound + 65600 ≤ bound'
          → bound' ≤ max_plaintext
          → Reaches body (g ∷ rest) inner
          → All IsByte inner
          → length inner ≤ bound
          → Carries body (h ∷ g ∷ rest) bound' (
              from_err onion
                (build_onion_layer r c h.info.public_key (forward g.info.address inner) s))
      unfolding encode_payload
      hop_layer g rest bound bound' s inner ig up fits reach bytes short =
          let joined = length-append g.info.address inner in
          let (frame, e, p, n, bytes') =
            peel_onion_layer-build_onion_layer r c rng laws h.keypair is.pair
              (forward g.info.address inner) s (ig.text, ig.fits, ig.bytes, bytes)
              (omega (arith, joined, ig.fits)) in
          (frame, rw (is.published, e), (inner, p, reach), bytes', omega (arith, joined, ig.fits))

    hop_step :
        (h g : Host) (rest : List Host) (bound bound' : ℕ)
        (run : Result CircuitError Bytes × r.State)
        → IsHost h
        → IsHost g
        → bound + 65600 ≤ bound'
        → bound' ≤ max_plaintext
        → Carries body (g ∷ rest) bound run
        → Carries body (h ∷ g ∷ rest) bound' (
            and_then run (λ inner s'.
              from_err onion
                (build_onion_layer r c h.info.public_key (forward g.info.address inner) s')))
    hop_step h g rest bound bound' run ih ig up fits (inner, e, reach, bytes, short) =
        rw e (hop_layer h ih g rest bound bound' run.1 inner ig up fits reach bytes short)

    wrapped :
        (hs : List Host) (e : Host) (bound : ℕ) (layer : Bytes) (s : r.State)
        → All IsHost hs
        → IsHost e
        → bound + 65600 * length hs ≤ max_plaintext
        → Reaches body (e ∷ []) layer
        → All IsByte layer
        → length layer ≤ bound
        → Carries body
            (hs ++ (e ∷ []))
            (bound + 65600 * length hs)
            (wrap_hops r c (infos hs) e.info layer s)
    unfolding wrap_hops
    wrapped [] e bound layer s ih ie fits reach bytes short =
        (layer, refl, reach, bytes, omega arith)
    wrapped (h ∷ []) e bound layer s ih ie fits reach bytes short =
        hop_step h e [] bound (bound + 65600 * 1) (ok layer, s) ih.0 ie (omega arith) (omega arith)
          (layer, refl, reach, bytes, short)
    wrapped (h ∷ g ∷ hs) e bound layer s ih ie fits reach bytes short =
        let below = bound + 65600 * length (g ∷ hs) in
        hop_step h g (hs ++ (e ∷ [])) below (bound + 65600 * length (h ∷ g ∷ hs))
          (wrap_hops r c (infos (g ∷ hs)) e.info layer s) ih.0 ih.1.0 (omega arith) (omega arith)
          (wrapped (g ∷ hs) e bound layer s ih.1 ie (omega arith) reach bytes short)

    wrap_after :
        (hs : List Host) (e : Host) (bound : ℕ) (run : Result CircuitError Bytes × r.State)
        → All IsHost hs
        → IsHost e
        → bound + 65600 * length hs ≤ max_plaintext
        → Carries body (e ∷ []) bound run
        → Carries body
            (hs ++ (e ∷ []))
            (bound + 65600 * length hs)
            (and_then run (λ layer s'. wrap_hops r c (infos hs) e.info layer s'))
    wrap_after hs e bound run ih ie fits (layer, eq, reach, bytes, short) =
        rw eq (wrapped hs e bound layer run.1 ih ie fits reach bytes short)

    infos-append : (hs : List Host) (e : Host) → infos (hs ++ (e ∷ [])) ≡ infos hs ++ (e.info ∷ [])
    infos-append [] e = refl
    infos-append (h ∷ hs) e = ap (◌∷◌ h.info) (infos-append hs e)

    build_circuit-append :
        (xs : List (RelayInfo r c)) (e : RelayInfo r c) (s : r.State)
        → build_circuit r c (xs ++ (e ∷ [])) body s
          ≡ and_then
              (from_err onion (build_onion_layer r c e.public_key (deliver body) s))
              (λ layer s'. wrap_hops r c xs e layer s')
    unfolding build_circuit
    build_circuit-append xs e s = rw (split_last-append xs e, build_circuit)

    circuit_of_parts :
        (hs : List Host) (e : Host) (s : r.State)
        → All IsHost hs
        → IsHost e
        → All IsByte body
        → length body + 65600 * suc (length hs) ≤ max_plaintext
        → Carries body
            (hs ++ (e ∷ []))
            (length body + 65600 * suc (length hs))
            (build_circuit r c (infos (hs ++ (e ∷ []))) body s)
    circuit_of_parts hs e s ih ie b fits =
        let bound : length body + 65600 * suc (length hs)
            ≡ length body + 65600 + 65600 * length hs =
          omega arith in
        rw (infos-append hs e, build_circuit-append (infos hs) e.info s, bound)
          (wrap_after hs e (length body + 65600)
            (from_err onion (build_onion_layer r c e.info.public_key (deliver body) s)) ih ie
            (omega arith) (exit_layer e ie s b (omega arith)))

    circuit_at :
        (hosts : List Host) (s : r.State)
        → (hs : List Host) × (e : Host) × (hosts ≡ hs ++ (e ∷ []))
        → All IsHost hosts
        → All IsByte body
        → length body + 65600 * length hosts ≤ max_plaintext
        → Carries body hosts
            (length body + 65600 * length hosts)
            (build_circuit r c (infos hosts) body s)
    circuit_at hosts s (hs, e, eq) ih b fits =
        let (front, last) = All-front hs e (subst (All IsHost) eq ih) in
        let n : length hosts ≡ suc (length hs) =
          ap length eq ∙ omega (arith, length-append hs (e ∷ [])) in
        subst
          (λ l.
            Carries body l (length body + 65600 * length hosts)
              (build_circuit r c (infos l) body s))
          (sym eq) (rw n (circuit_of_parts hs e s front last b (omega arith)))

    -- For every path that is not empty, over relays whose entries are right, and a body of bytes whose
    -- layers stay within the limit of the cipher, `build_circuit` succeeds, and the frame travels: each
    -- relay peels it with its own key, to the address of the next relay and the inner frame, and the
    -- last one gets exactly the body. The frame is at most 65600 bytes longer for each relay.
    pub build_circuit-Reaches :
        (hosts : List Host) (s : r.State)
        → 0 < length hosts
        → All IsHost hosts
        → All IsByte body
        → length body + 65600 * length hosts ≤ max_plaintext
        → Carries body hosts
            (length body + 65600 * length hosts)
            (build_circuit r c (infos hosts) body s)
    build_circuit-Reaches hosts s h ih b fits = circuit_at hosts s (last_host hosts h) ih b fits
