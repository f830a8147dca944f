-- ===== src/Prelude/Trim.antt =====
-- `str::trim` of Rust's standard library on UTF-8 bytes: white space in the sense of Unicode is taken
-- off both ends.
use orf_veil.Prelude.Tests.{leb, ◌==◌}
use orf_veil.Prelude.Lists.{All}
use orf_veil.Prelude.Bytes.{Bytes}
use Prim.Native.Nat.{ℕ, ◌<◌}
use mathlib.Core.Path.{◌≡◌, refl}
use mathlib.Core.Bool.{Bool, true, false, ◌&&◌, ◌||◌}
use mathlib.Core.List.{[], ◌∷◌, reverse, reverse_aux, reverse-reverse}
use native.Mathlib.Omega.{arith}

-- White space of one, two and three bytes.
unfoldable pub is_space : ℕ → Bool
is_space a = a == 32 || (leb 9 a && leb a 13)

unfoldable pub is_space_2 : ℕ → ℕ → Bool
is_space_2 a b = a == 194 && (b == 133 || b == 160)

unfoldable pub is_space_3 : ℕ → ℕ → ℕ → Bool
is_space_3 a b c =
    (a == 225 && (b == 154 && c == 128))
    || ((a == 226
          && (b == 128 && ((leb 128 c && leb c 138) || (c == 168 || (c == 169 || c == 175)))))
        || ((a == 226 && (b == 129 && c == 159)) || (a == 227 && (b == 128 && c == 128))))

-- Takes white space off the front; for the back the bytes come in reverse.
module _ (two : ℕ → ℕ → Bool) (three : ℕ → ℕ → ℕ → Bool) where
  unfoldable pub strip : Bytes → Bytes
  unfolding is_space
  strip [] = []
  strip (a ∷ []) = elim (is_space a) [ true ↦ [] | false ↦ a ∷ [] ]
  strip (a ∷ b ∷ []) = elim (is_space a) [
    | true ↦ strip (b ∷ [])
    | false ↦ elim (two a b) [ true ↦ [] | false ↦ a ∷ b ∷ [] ]
  ]
  strip (a ∷ b ∷ c ∷ rest) = elim (is_space a) [
    | true ↦ strip (b ∷ c ∷ rest)
    | false ↦ elim (two a b) [
      | true ↦ strip (c ∷ rest)
      | false ↦ elim (three a b c) [ true ↦ strip rest | false ↦ a ∷ b ∷ c ∷ rest ]
    ]
  ]

  strip_none :
      (a : ℕ) (s : Bytes)
      → is_space a ≡ false
      → ((b : ℕ) → two a b ≡ false)
      → ((b c : ℕ) → three a b c ≡ false)
      → strip (a ∷ s) ≡ a ∷ s
  unfolding strip
  strip_none a [] h h2 h3 = rw (h, strip) refl
  strip_none a (b ∷ []) h h2 h3 = rw (h, h2 b, strip) refl
  strip_none a (b ∷ c ∷ s) h h2 h3 = rw (h, h2 b, h3 b c, strip) refl

unfoldable pub trim_start : Bytes → Bytes
unfolding is_space_2 is_space_3
trim_start = strip is_space_2 is_space_3

unfoldable pub trim_end : Bytes → Bytes
unfolding is_space_2 is_space_3
trim_end s = reverse (strip (λ a b. is_space_2 b a) (λ a b c. is_space_3 c b a) (reverse s))

unfoldable pub trim : Bytes → Bytes
unfolding trim_start trim_end
trim s = trim_end (trim_start s)

-- A visible character of ASCII.
abbrev pub IsPlain : ℕ → Type 0
IsPlain b = (32 < b) × (b < 128)

module _ (a : ℕ) (h : IsPlain a) where
  plain-is_space : is_space a ≡ false
  unfolding is_space
  plain-is_space = ground arith

  plain-is_space_2 : (b : ℕ) → is_space_2 a b ≡ false
  unfolding is_space_2
  plain-is_space_2 b = ground arith

  plain-is_space_2_back : (b : ℕ) → is_space_2 b a ≡ false
  unfolding is_space_2
  plain-is_space_2_back b = ground arith

  plain-is_space_3 : (b c : ℕ) → is_space_3 a b c ≡ false
  unfolding is_space_3
  plain-is_space_3 b c = ground arith

  plain-is_space_3_back : (b c : ℕ) → is_space_3 c b a ≡ false
  unfolding is_space_3
  plain-is_space_3_back b c = ground arith

trim_start_plain : (s : Bytes) → All IsPlain s → trim_start s ≡ s
unfolding trim_start strip
trim_start_plain [] h = refl
trim_start_plain (a ∷ s) h =
    strip_none is_space_2 is_space_3 a s (plain-is_space a h.0) (plain-is_space_2 a h.0)
      (plain-is_space_3 a h.0)

strip_back_plain :
    (s : Bytes) → All IsPlain s → strip (λ a b. is_space_2 b a) (λ a b c. is_space_3 c b a) s ≡ s
unfolding strip
strip_back_plain [] h = refl
strip_back_plain (a ∷ s) h =
    strip_none (λ a b. is_space_2 b a) (λ a b c. is_space_3 c b a) a s (plain-is_space a h.0)
      (plain-is_space_2_back a h.0) (plain-is_space_3_back a h.0)

All-reverse_aux :
    (s acc : Bytes) → All IsPlain s → All IsPlain acc → All IsPlain (reverse_aux s acc)
All-reverse_aux [] acc h k = k
All-reverse_aux (a ∷ s) acc h k = All-reverse_aux s (a ∷ acc) h.1 (h.0, k)

-- Text of visible ASCII characters has no white space to trim.
pub trim_plain : (s : Bytes) → All IsPlain s → trim s ≡ s
unfolding trim trim_end
trim_plain s h =
    let e = strip_back_plain (reverse s) (All-reverse_aux s [] h tt) in
    rw (trim_start_plain s h, e) (reverse-reverse s)
