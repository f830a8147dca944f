-- ===== src/Sdk/Delivery/Fleet.antt =====
-- The relays of a topology with the key pairs that they run with.
use orf_veil.Prelude.{◌<◌, ◌≡◌, refl, ap, List, [], ◌∷◌, map, length, All}
use orf_veil.Prelude.Bytes.{Bytes, IsByte}
use orf_veil.Prelude.Perms.{All-prop, All-perm}
use orf_veil.External.Random.{Rng}
use orf_veil.External.Crypto.{Crypto, CryptoLaws}
use orf_veil.Core.Crypto.Keys.{KeyPair}
use orf_veil.Routing.Topology.{RelayInfo}
use orf_veil.Routing.Circuit.Peeling.{Host, IsHost, infos}
use mathlib.Core.List.{Perm}
use mathlib.Core.List.Perm
use std.HLevel.{IsOfHLevel, retract_hlevel}
use native.Mathlib.Bridge.{le_prop}
use native.Mathlib.Nat.{ℕ_set}

module _ (r : Rng) (c : Crypto r) (keypair_of : RelayInfo r c → KeyPair r c) where
  abbrev pub host : RelayInfo r c → Host r c
  host x = record { info = x; keypair = keypair_of x }

  -- Every relay runs with the key pair of its entry.
  abbrev pub AreHosts : List (RelayInfo r c) → Type 0
  AreHosts = All (λ x. IsHost r c (host x))

  pub map-host : (xs : List (RelayInfo r c)) → infos r c (map host xs) ≡ xs
  map-host [] = refl
  map-host (x ∷ xs) = ap (◌∷◌ x) (map-host xs)

  pub hosts-IsHost : (xs : List (RelayInfo r c)) → AreHosts xs → All (IsHost r c) (map host xs)
  hosts-IsHost [] h = tt
  hosts-IsHost (x ∷ xs) h = (h.0, hosts-IsHost xs h.1)

module _ (r : Rng) (c : Crypto r) (laws : CryptoLaws r c) where
  -- A public key is determined by its bytes.
  PublicKey_set : IsSet c.PublicKey
  unfolding IsOfHLevel
  PublicKey_set =
      let bytes_set : IsSet Bytes = hlevel ℕ_set in
      retract_hlevel 2 {A = c.PublicKey} {B = Bytes} c.public_as_bytes c.public_from_bytes
        laws.public_from_bytes-as_bytes bytes_set

  IsHost-prop : (h : Host r c) → IsProp (IsHost r c h)
  IsHost-prop h =
      let bytes : IsProp (All IsByte h.info.address) =
        All-prop {P = IsByte} (λ b. le_prop) h.info.address in
      let fits : IsProp (length h.info.address < 65536) = le_prop in
      hlevel (PublicKey_set, fits, bytes)

  pub AreHosts-perm :
      (keypair_of : RelayInfo r c → KeyPair r c) {xs ys : List (RelayInfo r c)}
      → Perm xs ys
      → AreHosts r c keypair_of ys
      → AreHosts r c keypair_of xs
  AreHosts-perm keypair_of p h = All-perm (λ x. IsHost-prop (host r c keypair_of x)) (Perm.symm p) h
