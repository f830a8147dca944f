-- ===== src/Prelude/Utf8.antt =====
-- `String::from_utf8` of Rust's standard library: a `String` is the byte string of a well-formed
-- UTF-8 text, by the table of well-formed byte sequences of the Unicode standard.
use orf_veil.Prelude.Tests.{leb, if◌then◌else◌}
use orf_veil.Prelude.Bytes.{Bytes}
use Prim.Native.Nat.{ℕ, zero, suc}
use mathlib.Core.Bool.{Bool, true, false, ◌&&◌}
use mathlib.Core.List.{[], ◌∷◌}

between : ℕ → ℕ → ℕ → Bool
between lo hi b = leb lo b && leb b hi

-- What is expected next: `start` a first byte, `next` a byte in a range and then that many
-- continuation bytes, `bad` nothing.
pub data Utf8State : Type 0 where
  start : Utf8State
  next : ℕ → ℕ → ℕ → Utf8State
  bad : Utf8State

unfoldable pub first_byte : ℕ → Utf8State
unfolding between
first_byte b =
    if leb b 0x7f
    then start
    else if between 0xc2 0xdf b
    then next 0x80 0xbf 0
    else if between 0xe0 0xe0 b
    then next 0xa0 0xbf 1
    else if between 0xed 0xed b
    then next 0x80 0x9f 1
    else if between 0xe1 0xef b
    then next 0x80 0xbf 1
    else if between 0xf0 0xf0 b
    then next 0x90 0xbf 2
    else if between 0xf1 0xf3 b
    then next 0x80 0xbf 2
    else if between 0xf4 0xf4 b
    then next 0x80 0x8f 2
    else bad

unfoldable pub utf8_step : Utf8State → ℕ → Utf8State
unfolding first_byte
utf8_step start b = first_byte b
utf8_step (next lo hi zero) b = if between lo hi b then start else bad
utf8_step (next lo hi (suc n)) b = if between lo hi b then next 0x80 0xbf n else bad
utf8_step bad b = bad

unfoldable pub utf8_run : Utf8State → Bytes → Bool
unfolding utf8_step
utf8_run start [] = true
utf8_run (next lo hi n) [] = false
utf8_run bad [] = false
utf8_run s (b ∷ bs) = utf8_run (utf8_step s b) bs

-- Whether the bytes are well-formed UTF-8.
unfoldable pub is_utf8 : Bytes → Bool
unfolding utf8_run
is_utf8 bs = utf8_run start bs
