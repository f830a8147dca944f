-- ===== src/Prelude/Bytes.antt =====
-- Byte strings as lists of numbers, and the fixed-width big-endian integers of Rust's standard
-- library (`to_be_bytes`, `from_be_bytes`, `as u16`, `as u32`).
use orf_veil.Prelude.Lists.{get_or, take, drop}
use orf_veil.Prelude.Tests.{◌==◌}
use Prim.Native.Nat.{ℕ, ◌+◌, ◌-◌, ◌*◌, ◌/◌, ◌%◌, ◌<◌}
use mathlib.Core.Path.{◌≡◌, refl}
use mathlib.Core.Logic.{◌↔◌}
use mathlib.Core.Bool.{Bool, true, false, ◌&&◌}
use mathlib.Core.List.{List, [], ◌∷◌}
use native.Mathlib.Omega.{arith}

abbrev pub Bytes : Type 0
Bytes = List ℕ

abbrev pub IsByte : ℕ → Type 0
IsByte b = b < 256

abbrev pub IsU16 : ℕ → Type 0
IsU16 n = n < 65536

abbrev pub IsU32 : ℕ → Type 0
IsU32 n = n < 4294967296

-- `x as u16` and `x as u32` keep the low bits.
abbrev pub as_u16 : ℕ → ℕ
as_u16 n = n % 65536

abbrev pub as_u32 : ℕ → ℕ
as_u32 n = n % 4294967296

-- `buf[i]`; the callers index arrays of a known length, inside it.
abbrev pub byte_at : Bytes → ℕ → ℕ
byte_at buf i = get_or buf i 0

-- `buf[from..to]`
abbrev pub slice : ℕ → ℕ → Bytes → Bytes
slice from to buf = take (to - from) (drop from buf)

-- `u16::to_be_bytes` and `u32::to_be_bytes`
abbrev pub u16_to_be : ℕ → Bytes
u16_to_be n = (n / 256 % 256) ∷ (n % 256) ∷ []

abbrev pub u32_to_be : ℕ → Bytes
u32_to_be n = (n / 16777216 % 256) ∷ (n / 65536 % 256) ∷ (n / 256 % 256) ∷ (n % 256) ∷ []

abbrev pub u16_from_be : ℕ → ℕ → ℕ
u16_from_be a b = a * 256 + b

abbrev pub u32_from_be : ℕ → ℕ → ℕ → ℕ → ℕ
u32_from_be a b c d = a * 16777216 + b * 65536 + c * 256 + d

pub u16_from_be-to_be : (n : ℕ) → IsU16 n → u16_from_be (n / 256 % 256) (n % 256) ≡ n
u16_from_be-to_be n h = omega arith

pub u32_from_be-to_be :
    (n : ℕ)
    → IsU32 n
    → u32_from_be (n / 16777216 % 256) (n / 65536 % 256) (n / 256 % 256) (n % 256) ≡ n
u32_from_be-to_be n h = omega arith

pub u16_to_be-from_be : (a b : ℕ) → IsByte a → IsByte b → u16_to_be (u16_from_be a b) ≡ a ∷ b ∷ []
u16_to_be-from_be a b ha hb = ground arith

pub u16_from_be-IsU16 : (a b : ℕ) → IsByte a → IsByte b → IsU16 (u16_from_be a b)
u16_from_be-IsU16 a b ha hb = omega arith

-- Equality of byte strings, as `==` on slices and `String`s.
unfoldable pub bytes_eq : Bytes → Bytes → Bool
bytes_eq [] [] = true
bytes_eq [] (b ∷ bs) = false
bytes_eq (a ∷ as') [] = false
bytes_eq (a ∷ as') (b ∷ bs) = a == b && bytes_eq as' bs

bytes_eq→eq : (a b : Bytes) → bytes_eq a b ≡ true → a ≡ b
unfolding bytes_eq
bytes_eq→eq [] [] h = refl
bytes_eq→eq [] (b ∷ bs) h = cc
bytes_eq→eq (a ∷ as') [] h = cc
bytes_eq→eq (a ∷ as') (b ∷ bs) h = ground (arith, bytes_eq→eq as' bs)

pub bytes_eq_refl : (a : Bytes) → bytes_eq a a ≡ true
unfolding bytes_eq
bytes_eq_refl [] = refl
bytes_eq_refl (a ∷ as') = ground (arith, bytes_eq_refl as')

eq→bytes_eq : (a b : Bytes) → a ≡ b → bytes_eq a b ≡ true
eq→bytes_eq a b h = rw h (bytes_eq_refl b)

pub bytes_eq_iff : (a b : Bytes) → (bytes_eq a b ≡ true) ↔ (a ≡ b)
bytes_eq_iff a b = (bytes_eq→eq a b, eq→bytes_eq a b)
