-- ===== src/Prelude/Decimal.antt =====
-- Decimal numbers as text: `str::parse` of an unsigned number, and the text of a `u16`.
use orf_veil.Prelude.Tests.{ltb, leb, ◌==◌, if◌then◌else◌, lt→ltb}
use orf_veil.Prelude.Lists.{length, length-append, All, All-append}
use orf_veil.Prelude.Bytes.{Bytes}
use Prim.Native.Nat.{ℕ, zero, suc, ◌+◌, ◌-◌, ◌*◌, ◌/◌, ◌%◌, ◌<◌, ◌≤◌}
use mathlib.Core.Path.{◌≡◌, refl, ap, ◌∙◌}
use mathlib.Core.Bool.{true, false, ◌&&◌}
use mathlib.Core.Logic.{inl, inr}
use mathlib.Core.Option.{Option, none, some}
use mathlib.Core.Option
use mathlib.Core.List.{[], ◌∷◌, ◌++◌}
use native.Mathlib.Omega.{arith}
use orf_veil.Prelude.Tests.{Bool-cases}

-- The decimal digits of a number, behind the value so far.
unfoldable pub digits : ℕ → Bytes → Option ℕ
digits value [] = some value
digits value (b ∷ bs) =
    let rest = digits (value * 10 + (b - 48)) bs in if leb 48 b && leb b 57 then rest else none

unfoldable pub below : ℕ → Option ℕ → Option ℕ
below bound o = Option.bind o (λ n. if ltb n bound then some n else none)

-- `str::parse` of the standard library for an unsigned type whose numbers are below the bound: digits
-- behind an optional plus sign, which is no number of its own.
unfoldable pub parse_uint : ℕ → Bytes → Option ℕ
unfolding digits below
parse_uint bound [] = none
parse_uint bound (b ∷ []) = below bound (digits 0 (b ∷ []))
parse_uint bound (b ∷ d ∷ ds) =
    let text = if b == 43 then d ∷ ds else b ∷ d ∷ ds in below bound (digits 0 text)

-- The text of a number of at most as many digits.
unfoldable pub decimal_from : ℕ → ℕ → Bytes
decimal_from zero n = []
decimal_from (suc k) n =
    let front = decimal_from k (n / 10) in
    if ltb n 10 then (48 + n) ∷ [] else front ++ ((48 + n % 10) ∷ [])

-- `Display` for `u16`.
unfoldable pub decimal : ℕ → Bytes
unfolding decimal_from
decimal n = decimal_from 5 n

abbrev pub IsDigit : ℕ → Type 0
IsDigit b = (48 ≤ b) × (b ≤ 57)

unfoldable limit : ℕ → ℕ
limit zero = 1
limit (suc k) = 10 * limit k

digits-append :
    (v : ℕ) (xs ys : Bytes) → digits v (xs ++ ys) ≡ Option.bind (digits v xs) (λ m. digits m ys)
unfolding digits Option.bind
digits-append v [] ys = refl
digits-append v (x ∷ xs) ys = elim (Bool-cases (leb 48 x && leb x 57)) [
  | inl e ↦ rw (e, digits) (digits-append (v * 10 + (x - 48)) xs ys)
  | inr e ↦ rw (e, digits) refl
]

digit_value : (v d : ℕ) → d < 10 → digits v ((48 + d) ∷ []) ≡ some (v * 10 + d)
unfolding digits
digit_value v d h =
    let e : (leb 48 (48 + d) && leb (48 + d) 57) ≡ true = ground arith in
    let q : v * 10 + (48 + d - 48) ≡ v * 10 + d = omega arith in rw (e, q) refl

digits-decimal_from : (k n : ℕ) → n < limit k → digits 0 (decimal_from k n) ≡ some n
unfolding decimal_from limit digits Option.bind
digits-decimal_from zero n h = let e : n ≡ 0 = omega (arith, h) in rw e refl
digits-decimal_from (suc k) n h = elim (Bool-cases (ltb n 10)) [
  | inl e ↦
      let same : 0 * 10 + n ≡ n = omega arith in
      rw (e, decimal_from) (digit_value 0 n (ground arith) ∙ ap (λ m. some m) same)
  | inr e ↦
      let last = 48 + n % 10 in
      let front = digits-decimal_from k (n / 10) (omega (arith, h)) in
      let whole : n / 10 * 10 + n % 10 ≡ n = omega arith in
      rw (e, decimal_from)
        (digits-append 0 (decimal_from k (n / 10)) (last ∷ [])
          ∙ rw front (digit_value (n / 10) (n % 10) (omega arith))
          ∙ ap (λ m. some m) whole)
]

decimal_from-IsDigit : (k n : ℕ) → All IsDigit (decimal_from k n)
unfolding decimal_from
decimal_from-IsDigit zero n = tt
decimal_from-IsDigit (suc k) n = elim (Bool-cases (ltb n 10)) [
  | inl e ↦ let small : n < 10 = ground arith in rw e ((omega arith, omega arith), tt)
  | inr e ↦ rw e (
      All-append IsDigit (decimal_from k (n / 10)) ((48 + n % 10) ∷ [])
        (decimal_from-IsDigit k (n / 10)) ((omega arith, omega arith), tt))
]

-- The text of a number holds digits only.
pub decimal-IsDigit : (n : ℕ) → All IsDigit (decimal n)
unfolding decimal
decimal-IsDigit n = decimal_from-IsDigit 5 n

parse_uint-digits :
    (bound n : ℕ) (s : Bytes)
    → All IsDigit s
    → 0 < length s
    → digits 0 s ≡ some n
    → n < bound
    → parse_uint bound s ≡ some n
unfolding parse_uint below Option.bind
parse_uint-digits bound n [] a l d h = elim l [ ]
parse_uint-digits bound n (b ∷ []) a l d h = rw (d, lt→ltb n bound h) refl
parse_uint-digits bound n (b ∷ e ∷ s) a l d h =
    let plain : (b == 43) ≡ false = ground (arith, a.0) in rw (plain, d, lt→ltb n bound h) refl

length-decimal_from : (k n : ℕ) → 0 < length (decimal_from (suc k) n)
unfolding decimal_from
length-decimal_from k n = elim (Bool-cases (ltb n 10)) [
  | inl e ↦ rw e (omega arith)
  | inr e ↦ rw e (omega (arith, length-append (decimal_from k (n / 10)) ((48 + n % 10) ∷ [])))
]

-- The text of a `u16` is parsed back, also as a number of a wider type.
pub parse_uint-decimal :
    (bound n : ℕ) → n < 65536 → n < bound → parse_uint bound (decimal n) ≡ some n
unfolding decimal limit
parse_uint-decimal bound n small h =
    parse_uint-digits bound n (decimal n) (decimal-IsDigit n) (length-decimal_from 4 n)
      (digits-decimal_from 5 n (omega (arith, small))) h
