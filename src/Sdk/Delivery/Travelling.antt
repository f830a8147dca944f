-- ===== src/Sdk/Delivery/Travelling.antt =====
-- A frame on its way: handed to the first relay of a path, and peeled to an envelope at its end.
use orf_veil.Prelude.{
  ◌+◌, ◌*◌, ◌≤◌, ◌<◌, ◌≡◌, refl, sym, arith, List, [], ◌∷◌, ◌++◌, map, length, length-map, take,
  drop, take-append-drop, All, All-front,
}
use orf_veil.Prelude.Bytes.{Bytes, IsByte}
use orf_veil.Prelude.Result.{ok}
use orf_veil.External.Random.{Rng, RngLaws}
use orf_veil.External.Crypto.{Crypto, CryptoLaws, max_plaintext}
use orf_veil.Core.Crypto.Keys.{KeyPair}
use orf_veil.Routing.Topology
use orf_veil.Routing.Topology.{RelayInfo, Topology}
use orf_veil.Routing.Circuit.{build_circuit}
use orf_veil.Routing.Circuit.Peeling.{IsHost, Reaches, build_circuit-Reaches}
use orf_veil.Routing.PathSelection.{select_diverse_path}
use orf_veil.Routing.PathSelection.Diverse.{select_diverse_path_ok}
use orf_veil.Sdk.Envelope.{envelope_size}
use orf_veil.Sdk.Client.{VeilClient}
use orf_veil.Sdk.Delivery.Fleet.{host, AreHosts, AreHosts-perm, map-host, hosts-IsHost}
use mathlib.Core.List.{Perm}
use mathlib.Core.Path.{subst}

-- A frame with the address it is handed to.
abbrev pub Handed : Type 0
Handed = Bytes × Bytes

module _ (r : Rng) (c : Crypto r) (keypair_of : RelayInfo r c → KeyPair r c) where
  abbrev pub StartsAt : Bytes → List (RelayInfo r c) → Type 0
  StartsAt addr [] = ⊥
  StartsAt addr (x ∷ xs) = x.address ≡ addr

  -- The frame is handed to the first of as many relays of the topology as the client has hops, each
  -- once; they peel it, one after the other, to an envelope of the fixed size.
  pub record Travels (client : VeilClient r c) (handed : Handed) (envelope : Bytes) : Type 0 where
    pub path : List (RelayInfo r c)
    pub rest : List (RelayInfo r c)
    pub chosen : Perm (path ++ rest) (Topology.all r c client.topology)
    pub hops : length path ≡ client.hop_count
    pub first : StartsAt handed.0 path
    pub reaches : Reaches r c envelope (map (host r c keypair_of) path) handed.1
    pub size : length envelope ≡ envelope_size

  -- The client has a positive number of hops, and relays enough that run; the layers stay within the
  -- limit of the cipher.
  pub record IsReady (client : VeilClient r c) : Type 0 where
    pub positive : 0 < client.hop_count
    pub enough : client.hop_count ≤ length (Topology.all r c client.topology)
    pub hosted : AreHosts r c keypair_of (Topology.all r c client.topology)
    pub fits : envelope_size + 65600 * client.hop_count ≤ max_plaintext

  module _ (rng : RngLaws r) (laws : CryptoLaws r c) where
    built_frame :
        (x : RelayInfo r c) (xs : List (RelayInfo r c)) (envelope : Bytes) (s : r.State)
        → AreHosts r c keypair_of (x ∷ xs)
        → All IsByte envelope
        → length envelope + 65600 * length (x ∷ xs) ≤ max_plaintext
        → (frame : Bytes) × ((build_circuit r c (x ∷ xs) envelope s).0 ≡ ok frame)
          × Reaches r c envelope (map (host r c keypair_of) (x ∷ xs)) frame
    built_frame x xs envelope s h b fits =
        let (frame, built, reaches, _, _) =
          build_circuit-Reaches r c rng laws envelope (map (host r c keypair_of) (x ∷ xs)) s
            (omega arith) (hosts-IsHost r c keypair_of (x ∷ xs) h) b
            (omega (arith, fits, length-map (host r c keypair_of) xs)) in
        (
          frame,
          subst (λ l. (build_circuit r c l envelope s).0 ≡ ok frame)
              (map-host r c keypair_of (x ∷ xs)) built,
          reaches,
        )

    module _ (client : VeilClient r c) (ready : IsReady client) where
      -- What is built for an envelope, on a path that was selected.
      abbrev pub Builds : Bytes → r.State → Type 0
      Builds envelope s =
          (x : RelayInfo r c) × (xs : List (RelayInfo r c)) × (frame : Bytes)
          × ((select_diverse_path r c client.topology client.hop_count s).0 ≡ ok (x ∷ xs))
          × ((build_circuit r c (x ∷ xs) envelope
                (select_diverse_path r c client.topology client.hop_count s).1).0
              ≡ ok frame)
          × Travels client (x.address, frame) envelope

      path-Builds :
          (envelope : Bytes) (s : r.State) (path rest : List (RelayInfo r c))
          → length envelope ≡ envelope_size
          → All IsByte envelope
          → (select_diverse_path r c client.topology client.hop_count s).0 ≡ ok path
          → Perm (path ++ rest) (Topology.all r c client.topology)
          → length path ≡ client.hop_count
          → Builds envelope s
      path-Builds envelope s [] rest size b e p l =
          let impossible : ⊥ = omega (arith, l, ready.positive) in elim impossible [ ]
      path-Builds envelope s (x ∷ xs) rest size b e p l =
          let here =
            All-front (λ y. IsHost r c (host r c keypair_of y)) (x ∷ xs) rest
              (AreHosts-perm r c laws keypair_of p ready.hosted) in
          let (frame, built, reaches) =
            built_frame x xs envelope (select_diverse_path r c client.topology client.hop_count s).1
              here b (omega (arith, l, size, ready.fits)) in
          (
            x,
            xs,
            frame,
            e,
            built,
            record {
              path = x ∷ xs;
              rest = rest;
              chosen = p;
              hops = l;
              first = refl;
              reaches = reaches;
              size = size;
            },
          )

      -- For an envelope of the fixed size a path is selected and a frame is built, which travels.
      pub envelope-Builds :
          (envelope : Bytes) (s : r.State)
          → length envelope ≡ envelope_size
          → All IsByte envelope
          → Builds envelope s
      envelope-Builds envelope s size b =
          let (diverse, leftover, selected, l, p, _, _) =
            select_diverse_path_ok r c rng client.topology client.hop_count s ready.enough in
          let all = diverse ++ leftover in
          path-Builds envelope s (take client.hop_count all) (drop client.hop_count all) size b
            selected
            (subst (λ t. Perm t (Topology.all r c client.topology))
              (sym (take-append-drop client.hop_count all)) p)
            l
