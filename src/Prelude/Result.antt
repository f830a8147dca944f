-- ===== src/Prelude/Result.antt =====
-- `Result<T, E>` of Rust, with the `?` operator as bind and `map_err`.
use mathlib.Core.Path.{◌≡◌, refl}
use mathlib.Core.Option.{Option, none, some}
use mathlib.Core.Logic.{◌⊎◌, inl, inr}

pub data Result {ℓ κ} (E : Type ℓ) (A : Type κ) : Type (ℓ ⊔ κ) where
  ok : A → Result E A
  err : E → Result E A

infixl 5 ◌>>=◌ ◌>>◌
abbrev pub ◌>>=◌ {ℓ κ μ} :
    {E : Type ℓ} {A : Type κ} {B : Type μ} → Result E A → (A → Result E B) → Result E B
ok a >>= f = f a
err e >>= f = err e

abbrev pub ◌>>◌ {ℓ κ μ} :
    {E : Type ℓ} {A : Type κ} {B : Type μ} → Result E A → Result E B → Result E B
m >> k = m >>= λ _. k

-- `.map_err(|e| f e)`
abbrev pub map_err {ℓ κ μ} :
    {E : Type ℓ} {F : Type κ} {A : Type μ} → (E → F) → Result E A → Result F A
map_err f (ok a) = ok a
map_err f (err e) = err (f e)

-- `.ok_or(e)`
abbrev pub ok_or {ℓ κ} : {E : Type ℓ} {A : Type κ} → E → Option A → Result E A
ok_or e (some a) = ok a
ok_or e none = err e

-- `?` on the result of a call that also advances a state, such as a generator.
abbrev pub and_then {ℓ κ μ ν} :
    {E : Type ℓ} {A : Type κ} {B : Type μ} {S : Type ν}
    → Result E A × S
    → (A → S → Result E B × S)
    → Result E B × S
and_then (ok a, s) f = f a s
and_then (err e, s) f = (err e, s)

-- The conversion of the error that `?` makes by `From`.
abbrev pub from_err {ℓ κ μ ν} :
    {E : Type ℓ} {F : Type κ} {A : Type μ} {S : Type ν} → (E → F) → Result E A × S → Result F A × S
from_err f (ok a, s) = (ok a, s)
from_err f (err e, s) = (err (f e), s)

pub Result-cases {ℓ κ} :
    {E : Type ℓ} {A : Type κ} (r : Result E A) → ((a : A) × (r ≡ ok a)) ⊎ ((e : E) × (r ≡ err e))
Result-cases (ok a) = inl (a, refl)
Result-cases (err e) = inr (e, refl)

-- What a sequence that ends well went through.
pub and_then-eq-ok {ℓ κ μ ν} :
    {E : Type ℓ} {A : Type κ} {B : Type μ} {S : Type ν} (first : Result E A × S)
    (k : A → S → Result E B × S) (b : B) (s' : S)
    → and_then first k ≡ (ok b, s')
    → (a : A) × (s : S) × (first ≡ (ok a, s)) × (k a s ≡ (ok b, s'))
and_then-eq-ok (ok a, s) k b s' h = (a, s, refl, h)
and_then-eq-ok (err e, s) k b s' h = cc
