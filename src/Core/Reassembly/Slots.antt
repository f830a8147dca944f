-- ===== src/Core/Reassembly/Slots.antt =====
-- The slots of an entry against the fragments of the message that they wait for.
use orf_veil.Prelude.{ℕ, zero, suc, ◌<◌, ◌≡◌, ◌≢◌, refl, ap, arith}
use orf_veil.Prelude.{List, [], ◌∷◌, Option, none, some, length, replicate, get_elem?, set}
use orf_veil.Prelude.Bytes.{Bytes}
use orf_veil.Core.Fragmentation.Chunks.{concat}
use orf_veil.Core.Reassembly.{join_fragments}
use orf_veil.Core.Reassembly.Invariant.{count_some, count_some-le}

-- A slot for each fragment, empty or with that fragment.
abbrev pub Agrees : List (Option Bytes) → List Bytes → Type 0
Agrees [] [] = Unit {0}
Agrees [] (x ∷ xs) = ⊥
Agrees (o ∷ fs) [] = ⊥
Agrees (none ∷ fs) (x ∷ xs) = Agrees fs xs
Agrees (some f ∷ fs) (x ∷ xs) = (f ≡ x) × Agrees fs xs

pub replicate-Agrees : (parts : List Bytes) → Agrees (replicate (length parts) none) parts
unfolding replicate
replicate-Agrees [] = tt
replicate-Agrees (x ∷ xs) = replicate-Agrees xs

-- The right fragment in its slot keeps the agreement.
pub set-Agrees :
    (fs : List (Option Bytes)) (parts : List Bytes) (i : ℕ) (v : Bytes)
    → get_elem? parts i ≡ some v
    → Agrees fs parts
    → Agrees (set fs i (some v)) parts
unfolding set get_elem?
set-Agrees [] [] i v e h = tt
set-Agrees [] (x ∷ xs) i v e h = h
set-Agrees (o ∷ fs) [] i v e h = absurd h
set-Agrees (none ∷ fs) (x ∷ xs) zero v e h = (cc, h)
set-Agrees (some f ∷ fs) (x ∷ xs) zero v e h = (cc, h.1)
set-Agrees (none ∷ fs) (x ∷ xs) (suc i) v e h = set-Agrees fs xs i v e h
set-Agrees (some f ∷ fs) (x ∷ xs) (suc i) v e h = (h.0, set-Agrees fs xs i v e h.1)

-- Full slots join to the message.
pub join-Agrees :
    (fs : List (Option Bytes)) (parts : List Bytes)
    → Agrees fs parts
    → count_some fs ≡ length fs
    → join_fragments fs ≡ some (concat parts)
unfolding join_fragments concat count_some
join-Agrees [] [] h e = refl
join-Agrees [] (x ∷ xs) h e = absurd h
join-Agrees (o ∷ fs) [] h e = absurd h
join-Agrees (none ∷ fs) (x ∷ xs) h e = absurd (omega (arith, count_some-le fs))
join-Agrees (some f ∷ fs) (x ∷ xs) h e = rw (join-Agrees fs xs h.1 (omega arith), h.0)

-- A store leaves the other slots.
pub get_elem?-set_ne {ℓ} :
    {A : Type ℓ} (xs : List A) (i j : ℕ) (v : A) → i ≢ j → get_elem? (set xs i v) j ≡ get_elem? xs j
unfolding set get_elem?
get_elem?-set_ne [] i j v h = refl
get_elem?-set_ne (x ∷ xs) zero zero v h = absurd (h refl)
get_elem?-set_ne (x ∷ xs) zero (suc j) v h = refl
get_elem?-set_ne (x ∷ xs) (suc i) zero v h = refl
get_elem?-set_ne (x ∷ xs) (suc i) (suc j) v h = get_elem?-set_ne xs i j v (λ e. h (ap suc e))

pub get_elem?-replicate {ℓ} :
    {A : Type ℓ} (n i : ℕ) (a : A) → i < n → get_elem? (replicate n a) i ≡ some a
unfolding replicate get_elem?
get_elem?-replicate zero i a h = elim h [ ]
get_elem?-replicate (suc n) zero a h = refl
get_elem?-replicate (suc n) (suc i) a h = get_elem?-replicate n i a (omega arith)
