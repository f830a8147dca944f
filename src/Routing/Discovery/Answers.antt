-- ===== src/Routing/Discovery/Answers.antt =====
-- What a discovery finds, told from the answers of the relays alone.
use orf_veil.Prelude.{◌≡◌, refl, ap, ◌∙◌, List, [], ◌∷◌, Option, some, inl, inr, if◌then◌else◌}
use orf_veil.Prelude.Bytes.{Bytes, bytes_eq}
use orf_veil.Prelude.Result.{Result, Result-cases, ok, err}
use orf_veil.External.Random.{Rng}
use orf_veil.External.Crypto.{Crypto}
use orf_veil.Relay.PullListener.{RelayIdentity}
use orf_veil.Routing.Topology
use orf_veil.Routing.Topology.{RelayInfo, Topology}
use orf_veil.Routing.TopologyFile.RoundTrip.{IsKeyed, new-IsKeyed, add_relay-IsKeyed}
use orf_veil.Routing.Discovery.{UnreachableRelay, info_of, discover_loop, discover_topology}

module _ (r : Rng) (c : Crypto r) (N IoError : Type 0)
    (describe : Bytes → N → Result IoError (RelayIdentity r c) × N) where
  abbrev pub Answers : Type 0
  Answers = List (Bytes × Result IoError (RelayIdentity r c))

  -- The addresses asked one after the other, with what each answers.
  unfoldable pub answers : List Bytes → N → Answers
  answers [] n = []
  answers (address ∷ addresses) n =
      (address, (describe address n).0) ∷ answers addresses (describe address n).1

  -- The addresses that gave an error, with it, in their order.
  unfoldable pub failures : Answers → List (UnreachableRelay IoError)
  failures [] = []
  failures ((address, ok identity) ∷ rest) = failures rest
  failures ((address, err error) ∷ rest) =
      record { address = address; error = error } ∷ failures rest

  -- What the last relay that answered with the id said, or else what was known of it before.
  unfoldable pub last_known : Bytes → Answers → Option (RelayInfo r c) → Option (RelayInfo r c)
  last_known id [] known = known
  last_known id ((address, ok identity) ∷ rest) known =
      last_known id rest
        (if bytes_eq identity.id id then some (info_of r c N IoError describe identity) else known)
  last_known id ((address, err error) ∷ rest) known = last_known id rest known

  -- A topology and the failures that agree with the answers and what was known.
  pub record Agrees (heard : Answers) (before : Topology r c)
      (found : Topology r c × List (UnreachableRelay IoError)) : Type 0 where
    pub unreachable : found.1 ≡ failures heard
    pub known :
        (id : Bytes)
        → Topology.get r c id found.0 ≡ last_known id heard (Topology.get r c id before)
    pub keyed : IsKeyed r c found.0

  discover_loop-Agrees :
      (addresses : List Bytes) (topology : Topology r c) (n : N)
      → IsKeyed r c topology
      → Agrees
          (answers addresses n)
          topology
          (discover_loop r c N IoError describe addresses topology n).0
  unfolding discover_loop answers failures last_known
  discover_loop-Agrees [] topology n keyed = record {
    unreachable = refl;
    known = λ id. refl;
    keyed = keyed;
  }
  discover_loop-Agrees (address ∷ addresses) topology n keyed =
      elim (Result-cases (describe address n).0) [
        | inl (identity, e) ↦
            let info = info_of r c N IoError describe identity in
            let later =
              discover_loop-Agrees addresses (Topology.add_relay r c info topology)
                (describe address n).1 (add_relay-IsKeyed r c info topology keyed) in
            rw (e, discover_loop, failures, last_known)
              (record {
                unreachable = later.unreachable;
                known = λ id.
                    later.known id
                    ∙ ap (last_known id (answers addresses (describe address n).1))
                        (Topology.get-add_relay r c info topology id);
                keyed = later.keyed;
              })
        | inr (error, e) ↦
            let later = discover_loop-Agrees addresses topology (describe address n).1 keyed in
            rw (e, discover_loop, failures, last_known)
              (record {
                unreachable =
                    ap (◌∷◌ (record { address = address; error = error })) later.unreachable;
                known = later.known;
                keyed = later.keyed;
              })
      ]

  -- Whatever the relays answer, the discovery reports exactly the addresses that gave an error, in
  -- their order; at each id the topology has what the last relay that answered with that id said, or
  -- nothing when none did; and every relay stands under its own id, once.
  pub discover_topology-Agrees :
      (addresses : List Bytes) (n : N)
      → Agrees
          (answers addresses n)
          (Topology.new r c)
          (discover_topology r c N IoError describe addresses n).0
  unfolding discover_topology
  discover_topology-Agrees addresses n =
      discover_loop-Agrees addresses (Topology.new r c) n (new-IsKeyed r c)
