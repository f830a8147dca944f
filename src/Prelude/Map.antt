-- ===== src/Prelude/Map.antt =====
-- `HashMap` of Rust's standard library with byte strings for keys, as an association list that
-- holds a key once. The order of the entries stands for the map's unspecified iteration order.
use orf_veil.Prelude.Tests.{if◌then◌else◌}
use orf_veil.Prelude.Bytes.{Bytes, bytes_eq, bytes_eq_iff, bytes_eq_refl}
use mathlib.Core.Path.{◌≡◌, refl, ap, subst}
use mathlib.Core.Logic.{inl, inr}
use orf_veil.Prelude.Tests.{Bool-cases}
use orf_veil.Prelude.Lists.{All}
use mathlib.Core.Bool.{false}
use mathlib.Core.Option.{Option, none, some}
use mathlib.Core.List.{List, [], ◌∷◌, ◌++◌, map}
use native.Mathlib.Omega.{arith}

abbrev pub Map {ℓ} : Type ℓ → Type ℓ
Map V = List (Bytes × V)

module _ {ℓ} {V : Type ℓ} where
  -- `map.get(k)`
  unfoldable pub lookup : Bytes → Map V → Option V
  lookup k [] = none
  lookup k ((j, v) ∷ m) = if bytes_eq j k then some v else lookup k m

  -- `map.insert(k, v)`
  unfoldable pub insert : Bytes → V → Map V → Map V
  insert k v [] = (k, v) ∷ []
  insert k v ((j, w) ∷ m) = if bytes_eq j k then (k, v) ∷ m else (j, w) ∷ insert k v m

  -- `map.remove(k)`
  unfoldable pub remove : Bytes → Map V → Map V
  remove k [] = []
  remove k ((j, w) ∷ m) = if bytes_eq j k then m else (j, w) ∷ remove k m

  -- `map.values()`
  unfoldable pub values : Map V → List V
  values m = map (λ e. e.1) m

  -- No key of the map is `k`.
  abbrev pub IsFresh : Bytes → Map V → Type 0
  IsFresh k [] = Unit {0}
  IsFresh k ((j, w) ∷ m) = (bytes_eq j k ≡ false) × IsFresh k m

  -- A map holds each of its keys once.
  abbrev pub HasUniqueKeys : Map V → Type 0
  HasUniqueKeys [] = Unit {0}
  HasUniqueKeys ((k, v) ∷ m) = IsFresh k m × HasUniqueKeys m

  pub lookup-insert :
      (k j : Bytes) (v : V) (m : Map V)
      → lookup j (insert k v m) ≡ (if bytes_eq k j then some v else lookup j m)
  unfolding lookup insert
  lookup-insert k j v [] = refl
  lookup-insert k j v ((i, w) ∷ m) =
      ground (arith, bytes_eq_iff k j, bytes_eq_iff i k, bytes_eq_iff i j, lookup-insert k j v m)

  lookup_of_IsFresh : (k : Bytes) (m : Map V) → IsFresh k m → lookup k m ≡ none
  unfolding lookup
  lookup_of_IsFresh k [] h = refl
  lookup_of_IsFresh k ((j, w) ∷ m) h = ground (arith, lookup_of_IsFresh k m h.1)

  IsFresh-congr : (k j : Bytes) (m : Map V) → k ≡ j → IsFresh k m → IsFresh j m
  IsFresh-congr k j m e h = rw e at h

  pub lookup-remove :
      (k j : Bytes) (m : Map V)
      → HasUniqueKeys m
      → lookup j (remove k m) ≡ (if bytes_eq k j then none else lookup j m)
  unfolding lookup remove
  lookup-remove k j [] h = ground arith
  lookup-remove k j ((i, w) ∷ m) h = ground (
    arith,
    bytes_eq_iff k j,
    bytes_eq_iff i k,
    bytes_eq_iff i j,
    lookup_of_IsFresh i m h.0,
    lookup-remove k j m h.1,
  )

  IsFresh-insert :
      (j k : Bytes) (v : V) (m : Map V)
      → bytes_eq k j ≡ false
      → IsFresh j m
      → IsFresh j (insert k v m)
  unfolding insert
  IsFresh-insert j k v [] e h = (e, tt)
  IsFresh-insert j k v ((i, w) ∷ m) e h = ground (arith, IsFresh-insert j k v m e h.1)

  IsFresh-remove : (j k : Bytes) (m : Map V) → IsFresh j m → IsFresh j (remove k m)
  unfolding remove
  IsFresh-remove j k [] h = tt
  IsFresh-remove j k ((i, w) ∷ m) h = ground (arith, IsFresh-remove j k m h.1)

  pub insert-HasUniqueKeys :
      (k : Bytes) (v : V) (m : Map V) → HasUniqueKeys m → HasUniqueKeys (insert k v m)
  unfolding insert
  insert-HasUniqueKeys k v [] h = (tt, tt)
  insert-HasUniqueKeys k v ((j, w) ∷ m) h = ground (
    arith,
    bytes_eq_iff j k,
    bytes_eq_iff k j,
    IsFresh-insert j k v m,
    insert-HasUniqueKeys k v m h.1,
    IsFresh-congr j k m,
  )

  pub remove-HasUniqueKeys : (k : Bytes) (m : Map V) → HasUniqueKeys m → HasUniqueKeys (remove k m)
  unfolding remove
  remove-HasUniqueKeys k [] h = tt
  remove-HasUniqueKeys k ((j, w) ∷ m) h =
      ground (arith, IsFresh-remove j k m h.0, remove-HasUniqueKeys k m h.1)

-- Every value of the map has the property.
abbrev pub AllValues {ℓ κ} : {V : Type ℓ} → (V → Type κ) → Map V → Type κ
AllValues P m = All (λ e. P e.1) m

module _ {ℓ κ} {V : Type ℓ} (P : V → Type κ) where
  pub lookup-AllValues : (k : Bytes) (m : Map V) {v : V} → AllValues P m → lookup k m ≡ some v → P v
  unfolding lookup
  lookup-AllValues k [] h e = cc
  lookup-AllValues k ((j, w) ∷ m) {v} h e = elim (Bool-cases (bytes_eq j k)) [
    | inl t ↦ let e' : w ≡ v = ground arith in subst P e' h.0
    | inr f ↦ lookup-AllValues k m h.1 (rw f at e)
  ]

  pub insert-AllValues :
      (k : Bytes) (v : V) (m : Map V) → P v → AllValues P m → AllValues P (insert k v m)
  unfolding insert
  insert-AllValues k v [] g h = (g, tt)
  insert-AllValues k v ((j, w) ∷ m) g h = elim (Bool-cases (bytes_eq j k)) [
    | inl t ↦ rw t (g, h.1)
    | inr f ↦ rw f (h.0, insert-AllValues k v m g h.1)
  ]

  pub remove-AllValues : (k : Bytes) (m : Map V) → AllValues P m → AllValues P (remove k m)
  unfolding remove
  remove-AllValues k [] h = tt
  remove-AllValues k ((j, w) ∷ m) h = elim (Bool-cases (bytes_eq j k)) [
    | inl t ↦ rw t h.1
    | inr f ↦ rw f (h.0, remove-AllValues k m h.1)
  ]

  -- What is inserted and removed again leaves the other values.
  pub remove-insert-AllValues :
      (k : Bytes) (v : V) (m : Map V) → AllValues P m → AllValues P (remove k (insert k v m))
  unfolding insert remove
  remove-insert-AllValues k v [] h = rw (bytes_eq_refl k) tt
  remove-insert-AllValues k v ((j, w) ∷ m) h = elim (Bool-cases (bytes_eq j k)) [
    | inl t ↦ rw (t, bytes_eq_refl k) h.1
    | inr f ↦ rw (f, f) (h.0, remove-insert-AllValues k v m h.1)
  ]

-- A fresh key comes last.
pub insert_fresh {ℓ} :
    {V : Type ℓ} (k : Bytes) (v : V) (m : Map V) → IsFresh k m → insert k v m ≡ m ++ ((k, v) ∷ [])
unfolding insert
insert_fresh k v [] h = refl
insert_fresh k v ((j, w) ∷ m) h = rw (h.0, insert) (ap (λ t. (j, w) ∷ t) (insert_fresh k v m h.1))
