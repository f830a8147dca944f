-- ===== src/Prelude/Lossy.antt =====
-- `String::from_utf8_lossy` of Rust's standard library: each maximal part of the bytes that begins a
-- well-formed sequence and does not finish one, and each other stray byte, becomes U+FFFD.
use orf_veil.Prelude.{ℕ, [], ◌∷◌, ◌++◌, true, false, ◌≡◌, refl, ap, sym, ◌∙◌}
use mathlib.Core.List.{append_assoc, append-nil}
use orf_veil.Prelude.Bytes.{Bytes}
use orf_veil.Prelude.Utf8.{Utf8State, start, next, bad, first_byte, utf8_step, utf8_run, is_utf8}

-- U+FFFD in UTF-8.
abbrev pub replacement : Bytes
replacement = 0xef ∷ 0xbf ∷ 0xbd ∷ []

-- What is written, the bytes of the sequence that is being read, and what is expected next.
abbrev Progress : Type 0
Progress = Bytes × (Bytes × Utf8State)

-- A byte that cannot go on begins anew behind the part that it ended.
restarted : ℕ → Utf8State → Progress
restarted b start = (replacement ++ (b ∷ []), ([], start))
restarted b (next lo hi n) = (replacement, (b ∷ [], next lo hi n))
restarted b bad = (replacement ++ replacement, ([], start))

refused : Utf8State → ℕ → Progress
unfolding restarted
refused start b = (replacement, ([], start))
refused (next lo hi n) b = restarted b (first_byte b)
refused bad b = restarted b (first_byte b)

-- What a byte leads to, by what is expected after it.
advanced : Utf8State → Bytes → ℕ → Utf8State → Progress
unfolding refused
advanced from part b start = (part ++ (b ∷ []), ([], start))
advanced from part b (next lo hi n) = ([], (part ++ (b ∷ []), next lo hi n))
advanced from part b bad = refused from b

lossy_run : Utf8State → Bytes → Bytes → Bytes
unfolding advanced
lossy_run start part [] = part
lossy_run (next lo hi n) part [] = replacement
lossy_run bad part [] = replacement
lossy_run s part (b ∷ bs) =
    let (written, (part', s')) = advanced s part b (utf8_step s b) in
    written ++ lossy_run s' part' bs

unfoldable pub from_utf8_lossy : Bytes → Bytes
unfolding lossy_run
from_utf8_lossy bs = lossy_run start [] bs

utf8_run-bad : (bs : Bytes) → utf8_run bad bs ≡ false
unfolding utf8_run utf8_step
utf8_run-bad [] = refl
utf8_run-bad (b ∷ bs) = utf8_run-bad bs

continued :
    (s s' : Utf8State) (part bs : Bytes) (b : ℕ)
    → utf8_run s' bs ≡ true
    → ((p : Bytes) → lossy_run s' p bs ≡ p ++ bs)
    → (let (written, (part', t)) = advanced s part b s' in written ++ lossy_run t part' bs)
      ≡ part ++ (b ∷ bs)
unfolding advanced
continued s start part bs b h ih =
    ap (λ l. (part ++ (b ∷ [])) ++ l) (ih []) ∙ append_assoc part (b ∷ []) bs
continued s (next lo hi n) part bs b h ih = ih (part ++ (b ∷ [])) ∙ append_assoc part (b ∷ []) bs
continued s bad part bs b h ih = let q = utf8_run-bad bs in cc

lossy_run-utf8_run :
    (s : Utf8State) (part bs : Bytes) → utf8_run s bs ≡ true → lossy_run s part bs ≡ part ++ bs
unfolding lossy_run utf8_run
lossy_run-utf8_run start part [] h = sym (append-nil part)
lossy_run-utf8_run (next lo hi n) part [] h = cc
lossy_run-utf8_run bad part [] h = cc
lossy_run-utf8_run s part (b ∷ bs) h =
    continued s (utf8_step s b) part bs b h (λ p. lossy_run-utf8_run (utf8_step s b) p bs h)

-- Well-formed text is kept.
pub from_utf8_lossy_ok : (bs : Bytes) → is_utf8 bs ≡ true → from_utf8_lossy bs ≡ bs
unfolding from_utf8_lossy is_utf8
from_utf8_lossy_ok bs h = lossy_run-utf8_run start [] bs h

multibyte : from_utf8_lossy (0xc3 ∷ 0xa9 ∷ []) ≡ 0xc3 ∷ 0xa9 ∷ []
unfolding from_utf8_lossy first_byte utf8_step
multibyte = refl

cut_off : from_utf8_lossy (65 ∷ 0xc3 ∷ []) ≡ 65 ∷ replacement
unfolding from_utf8_lossy first_byte utf8_step
cut_off = refl
