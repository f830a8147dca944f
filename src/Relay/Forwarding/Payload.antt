-- ===== src/Relay/Forwarding/Payload.antt =====
-- The encoding of onion payloads.
use orf_veil.Prelude.{
  Bool-cases, ◌==◌, if◌then◌else◌, ℕ, ◌+◌, ◌*◌, ◌/◌, ◌%◌, ◌<◌, ◌≤◌, ◌≡◌, ◌⊎◌, inl, inr, refl, arith,
  [], ◌∷◌, true, length, All, All-append, take, drop, length-append, take-append_length,
  drop-append_length, take-append-drop, length-take, All-take, All-drop,
}
use orf_veil.Prelude.Bytes.{Bytes, IsByte, as_u16, u16_from_be-to_be}
use orf_veil.Prelude.Utf8.{is_utf8}
use orf_veil.Prelude.Result.{ok, err}
use orf_veil.Relay.Forwarding.{
  OnionPayload, forward, deliver, malformed, encode_payload, decode_forward, decode_payload,
}

-- The next hop is a `String` whose length fits the two bytes on the wire.
abbrev pub IsEncodable : OnionPayload → Type 0
IsEncodable (forward next_hop body) =
    (is_utf8 next_hop ≡ true) × (length next_hop < 65536) × All IsByte next_hop × All IsByte body
IsEncodable (deliver body) = All IsByte body

pub encode_payload-IsByte : (p : OnionPayload) → IsEncodable p → All IsByte (encode_payload p)
unfolding encode_payload
encode_payload-IsByte (forward hop body) h =
    (omega arith, (omega arith, (omega arith, All-append IsByte hop body h.2 h.3)))
encode_payload-IsByte (deliver body) h = (omega arith, h)

-- Decoding the encoding of an encodable payload gives the payload back.
pub decode_payload-encode_payload :
    (p : OnionPayload) → IsEncodable p → decode_payload (encode_payload p) ≡ ok p
unfolding decode_payload encode_payload decode_forward
decode_payload-encode_payload (forward hop body) h =
    let n : as_u16 (length hop) ≡ length hop = omega arith in
    let m = u16_from_be-to_be (length hop) h.1 in
    rw (n, m, take-append_length _ hop body refl, drop-append_length _ hop body refl, h.0)
      (ground (arith, length-append hop body))
decode_payload-encode_payload (deliver body) h = refl

decode_forward-eq-ok :
    (a b : ℕ) (rest : Bytes) (p : OnionPayload)
    → decode_forward (a ∷ b ∷ rest) ≡ ok p
    → (p ≡ forward (take (a * 256 + b) rest) (drop (a * 256 + b) rest))
      × (a * 256 + b ≤ length rest)
      × (is_utf8 (take (a * 256 + b) rest) ≡ true)
unfolding decode_forward
decode_forward-eq-ok a b rest p h = ground arith

forward_unique :
    (a b : ℕ) (rest : Bytes) (p : OnionPayload)
    → IsByte a
    → IsByte b
    → All IsByte rest
    → decode_forward (a ∷ b ∷ rest) ≡ ok p
    → (encode_payload p ≡ 0 ∷ a ∷ b ∷ rest) × IsEncodable p
unfolding encode_payload
forward_unique a b rest p ha hb hr h =
    let (e, fits, text) = decode_forward-eq-ok a b rest p h in
    let n : length (take (a * 256 + b) rest) ≡ a * 256 + b =
      omega (arith, length-take (a * 256 + b) rest) in
    let hi : length (take (a * 256 + b) rest) % 65536 / 256 % 256 ≡ a = omega arith in
    let lo : length (take (a * 256 + b) rest) % 65536 % 256 ≡ b = omega arith in
    rw e (
      rw (hi, lo, take-append-drop (a * 256 + b) rest),
      (text, omega arith, All-take IsByte _ rest hr, All-drop IsByte _ rest hr),
    )

forward_encoding :
    (rest : Bytes) (p : OnionPayload)
    → All IsByte rest
    → decode_forward rest ≡ ok p
    → (encode_payload p ≡ 0 ∷ rest) × IsEncodable p
forward_encoding [] p b h = unfold decode_forward in cc
forward_encoding (x ∷ []) p b h = unfold decode_forward in cc
forward_encoding (x ∷ y ∷ rest) p b h = forward_unique x y rest p b.0 b.1.0 b.1.1 h

decode_payload-eq-ok :
    (flag : ℕ) (rest : Bytes) (p : OnionPayload)
    → decode_payload (flag ∷ rest) ≡ ok p
    → ((flag ≡ 0) × (decode_forward rest ≡ ok p)) ⊎ ((flag ≡ 1) × (p ≡ deliver rest))
unfolding decode_payload
decode_payload-eq-ok flag rest p h = elim (Bool-cases (flag == 0)) [
  | inl e ↦ inl (ground arith, rw e at h)
  | inr e ↦
      let h' : (if flag == 1 then ok (deliver rest) else err malformed) ≡ ok p = rw e at h in
      inr (ground arith, ground arith)
]

-- Each payload has one encoding only: what decodes is encoded to the same bytes.
pub encode_payload-decode_payload :
    (bytes : Bytes) (p : OnionPayload)
    → All IsByte bytes
    → decode_payload bytes ≡ ok p
    → (encode_payload p ≡ bytes) × IsEncodable p
encode_payload-decode_payload [] p b h = unfold decode_payload in cc
encode_payload-decode_payload (flag ∷ rest) p b h = elim (decode_payload-eq-ok flag rest p h) [
  | inl (e, f) ↦ rw e (forward_encoding rest p b.1 f)
  | inr (e, f) ↦ rw (e, f) (unfold encode_payload in (refl, b.1))
]
