-- ===== src/Sdk/Delivery/Fabric/Owed.antt =====
-- Frames that are on their way to be delivered as bodies, with the hops that they have left.
use orf_veil.Prelude.{
  ℕ, suc, ◌+◌, ◌≡◌, refl, ap, arith, List, [], ◌∷◌, ◌++◌, Bool, true, false, ◌||◌, map, length, All,
}
use orf_veil.Prelude.Bytes.{Bytes, bytes_eq}
use orf_veil.External.Random.{Rng}
use orf_veil.External.Crypto.{Crypto}
use orf_veil.Core.Crypto.Keys.{KeyPair}
use orf_veil.Routing.Circuit.Peeling.{Reaches}
use orf_veil.Routing.Topology.{RelayInfo}
use orf_veil.Sdk.Delivery.Fleet.{host}
use orf_veil.Sdk.Delivery.Travelling.{Handed}
use mathlib.Core.Path.{subst}

-- The address is one of the addresses.
unfoldable pub serves : List Bytes → Bytes → Bool
serves [] addr = false
serves (a ∷ addrs) addr = bytes_eq a addr || serves addrs addr

module _ (r : Rng) (c : Crypto r) (keypair_at : Bytes → KeyPair r c) where
  -- The key pair of an entry is the one that runs at its address.
  abbrev pub keypair_of : RelayInfo r c → KeyPair r c
  keypair_of x = keypair_at x.address

module _ (r : Rng) (c : Crypto r) (keypair_at : Bytes → KeyPair r c) (addrs : List Bytes) where
  -- The frame goes to the first of so many relays, which all run, and reaches along them as the body.
  pub record OnItsWay (body : Bytes) (handed : Handed) (hops : ℕ) : Type 0 where
    pub first : RelayInfo r c
    pub others : List (RelayInfo r c)
    pub goes_to : first.address ≡ handed.0
    pub hops_left : hops ≡ suc (length others)
    pub running : All (λ x. serves addrs x.address ≡ true) (first ∷ others)
    pub reaches :
        Reaches r c body (map (host r c (keypair_of r c keypair_at)) (first ∷ others)) handed.1

  -- The frames are on their way as the bodies, one each and in order, with so many hops left in all.
  abbrev pub Owed : List Handed → List Bytes → ℕ → Type 0
  Owed [] [] hops = hops ≡ 0
  Owed [] (b ∷ bodies) hops = ⊥
  Owed (h ∷ handed) [] hops = ⊥
  Owed (h ∷ handed) (b ∷ bodies) hops =
      (n : ℕ) × (m : ℕ) × (hops ≡ n + m) × OnItsWay b h n × Owed handed bodies m

  pub Owed-append :
      (xs ys : List Handed) (bs cs : List Bytes) (n m : ℕ)
      → Owed xs bs n
      → Owed ys cs m
      → Owed (xs ++ ys) (bs ++ cs) (n + m)
  Owed-append [] ys [] cs n m h k = let e : m ≡ n + m = omega arith in subst (λ i. Owed ys cs i) e k
  Owed-append [] ys (b ∷ bs) cs n m h k = elim h [ ]
  Owed-append (x ∷ xs) ys [] cs n m h k = elim h [ ]
  Owed-append (x ∷ xs) ys (b ∷ bs) cs n m (i, j, e, on, rest) k =
      (i, j + m, omega (arith, e), on, Owed-append xs ys bs cs j m rest k)

  -- What is owed for a run of frames, taken apart at one of them.
  pub record SplitAt (early late : List Handed) (h : Handed) (bodies : List Bytes) (hops : ℕ)
      : Type 0 where
    pub sooner : List Bytes
    pub body : Bytes
    pub later : List Bytes
    pub before : ℕ
    pub here : ℕ
    pub behind : ℕ
    pub split : bodies ≡ sooner ++ (body ∷ later)
    pub total : hops ≡ before + (here + behind)
    pub owed_before : Owed early sooner before
    pub on_its_way : OnItsWay body h here
    pub owed_behind : Owed late later behind

  pub Owed-split :
      (early late : List Handed) (h : Handed) (bodies : List Bytes) (hops : ℕ)
      → Owed (early ++ (h ∷ late)) bodies hops
      → SplitAt early late h bodies hops
  Owed-split [] late h [] hops o = elim o [ ]
  Owed-split [] late h (b ∷ bodies) hops (n, m, e, on, rest) = record {
    sooner = [];
    body = b;
    later = bodies;
    before = 0;
    here = n;
    behind = m;
    split = refl;
    total = omega arith;
    owed_before = refl;
    on_its_way = on;
    owed_behind = rest;
  }
  Owed-split (x ∷ early) late h [] hops o = elim o [ ]
  Owed-split (x ∷ early) late h (b ∷ bodies) hops (n, m, e, on, rest) =
      let s = Owed-split early late h bodies m rest in
      record {
        sooner = b ∷ s.sooner;
        body = s.body;
        later = s.later;
        before = n + s.before;
        here = s.here;
        behind = s.behind;
        split = ap (◌∷◌ b) s.split;
        total = omega (arith, e, s.total);
        owed_before = (n, s.before, refl, on, s.owed_before);
        on_its_way = s.on_its_way;
        owed_behind = s.owed_behind;
      }

  pub Owed-nil : (handed : List Handed) (bodies : List Bytes) → Owed handed bodies 0 → handed ≡ []
  Owed-nil [] bodies o = refl
  Owed-nil (h ∷ handed) [] o = elim o [ ]
  Owed-nil (h ∷ handed) (b ∷ bodies) (n, m, e, on, rest) =
      let impossible : ⊥ = omega (arith, e, on.hops_left) in elim impossible [ ]
