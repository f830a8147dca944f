-- ===== src/Sdk/Receiver/Opening.antt =====
-- Opening envelopes: what a sender sealed opens, and what opens is a valid cell.
use orf_veil.Prelude.{
  ◌≡◌, refl, ap, sym, ◌∙◌, arith, drop, Option-cases, inl, inr, List, [], ◌∷◌, Option, none, some,
  Bool-cases, ◌==◌, length, length-drop, All, All-append,
}
use orf_veil.Prelude.Bytes.{Bytes, IsByte}
use orf_veil.Prelude.Result.{Result, ok, Result-cases}
use orf_veil.External.Random.{Rng, RngLaws}
use orf_veil.External.Crypto.{Crypto, CryptoLaws}
use orf_veil.Core.Cell.{Cell}
use orf_veil.Core.Cell.Valid.{IsValid}
use orf_veil.Core.Crypto.Keys
use orf_veil.Core.Crypto.Keys.{KeyPair}
use orf_veil.Core.Crypto.Encryption.{
  encrypted_cell_size, decrypt_cell-encrypt_cell, decrypt_cell-eq-ok, decrypt_cell_total,
}
use orf_veil.Sdk.Envelope.{EnvelopeError, wrap, unwrap, envelope_size, unwrap-wrap, unwrap_lem}
use orf_veil.Sdk.Session.{Session, session_context, session_public_key, IsSharedWith}
use orf_veil.Sdk.Client.{seal_cell}
use orf_veil.Sdk.Receiver.{open_envelope, open_all, push_some}
use mathlib.Core.Option
use mathlib.Core.Path.{subst}

module _ (r : Rng) (c : Crypto r) (identity : KeyPair r c) where
  -- What an envelope opens to, where opening it does not panic.
  unfoldable pub opened_cell : Bytes → Option Cell
  opened_cell raw = Option.get_or (open_envelope r c identity raw) none

  unfoldable pub opened_cells : List Bytes → List Cell
  opened_cells [] = []
  opened_cells (raw ∷ raws) = push_some r c (opened_cell raw) (opened_cells raws)

  pub opened_cell-some :
      (raw : Bytes) (cell : Cell)
      → opened_cell raw ≡ some cell
      → open_envelope r c identity raw ≡ some (some cell)
  unfolding opened_cell
  opened_cell-some raw cell h = elim (Option-cases (open_envelope r c identity raw)) [
    | inl e ↦ let h' = rw (e, opened_cell) at h in cc
    | inr (o, e) ↦ let h' : o ≡ some cell = rw (e, opened_cell) at h in e ∙ ap (λ x. some x) h'
  ]

module _ (r : Rng) (c : Crypto r) (rng : RngLaws r) (laws : CryptoLaws r c) where
  -- A valid cell that a session seals for its recipient is sealed, in an envelope of
  -- `envelope_size` numbers below 256, which the recipient opens to the cell.
  pub open_envelope-seal_cell :
      (identity : KeyPair r c) (session : Session r c) (cell : Cell) (s : r.State)
      → IsSharedWith r c identity session
      → IsValid cell
      → (raw : Bytes) × ((seal_cell r c session cell s).0 ≡ some (ok raw))
        × (length raw ≡ envelope_size)
        × (open_envelope r c identity raw ≡ some (some cell))
        × All IsByte raw
  unfolding seal_cell open_envelope wrap
  open_envelope-seal_cell identity session cell s shared v =
      let (sealed, e, n, bytes, back) =
        decrypt_cell-encrypt_cell r c rng laws session.cell_key cell s v in
      let (size, unwrapped) = unwrap-wrap r c laws (session_public_key r c session) sealed n in
      (
        wrap r c (session_public_key r c session) sealed,
        rw e refl,
        size,
        rw (unwrapped, shared, back, open_envelope) refl,
        All-append IsByte (c.public_as_bytes (session_public_key r c session)) sealed
            (laws.public_as_bytes-IsByte (session_public_key r c session)) bytes,
      )

  unwrap_size :
      (raw encrypted : Bytes) (p : c.PublicKey)
      → unwrap r c raw ≡ some (ok (p, encrypted))
      → length encrypted ≡ encrypted_cell_size
  unwrap_size raw encrypted p h = elim (Bool-cases (length raw == 572)) [
    | inl e ↦
        let h' = rw (unwrap_lem r c raw, e) at h in
        let q : drop 32 raw ≡ encrypted = cc in
        let size : length raw ≡ 572 = ground (arith, e) in
        sym (ap length q) ∙ omega (arith, size, length-drop 32 raw)
    | inr e ↦ let h' = rw (unwrap_lem r c raw, e) at h in cc
  ]

  unwrap_total :
      (raw : Bytes)
      → (out : Result EnvelopeError (c.PublicKey × Bytes)) × (unwrap r c raw ≡ some out)
  unwrap_total raw = (_, unwrap_lem r c raw)

  module _ (identity : KeyPair r c) where
    -- What opening an envelope gives: nothing, or a valid cell.
    abbrev Opens : Bytes → Type 0
    Opens raw =
        (o : Option Cell) × (open_envelope r c identity raw ≡ some o)
        × ((cell : Cell) → o ≡ some cell → IsValid cell)

    envelope-Opens : (raw : Bytes) → Opens raw
    unfolding open_envelope
    envelope-Opens raw =
        let (out, u) = unwrap_total raw in
        elim (Result-cases out) [
          | inr (x, e) ↦ (none, rw (u, e, open_envelope) refl, λ cell h. cc)
          | inl ((p, encrypted), e) ↦
              let shared = Keys.diffie_hellman r c identity p in
              elim (Result-cases (Keys.derive_key r c shared session_context)) [
                | inr (x, k) ↦ (none, rw (u, e, k, open_envelope) refl, λ cell h. cc)
                | inl (key, k) ↦
                    let size = unwrap_size raw encrypted p (u ∙ ap (λ y. some y) e) in
                    let (result, d) = decrypt_cell_total r c rng laws key encrypted size in
                    elim (Result-cases result) [
                      | inr (x, q) ↦ (none, rw (u, e, k, d, q, open_envelope) refl, λ cell h. cc)
                      | inl (y, q) ↦ (
                        some y,
                        rw (u, e, k, d, q, open_envelope) refl,
                        λ cell h.
                            let same : y ≡ cell = cc in
                            subst IsValid same
                              (decrypt_cell-eq-ok r c rng laws key encrypted y size
                                (d ∙ ap (λ z. some z) q)).0,
                      )
                    ]
              ]
        ]

    -- Whatever the envelope, opening it does not panic.
    pub open_envelope_total :
        (raw : Bytes) → open_envelope r c identity raw ≡ some (opened_cell r c identity raw)
    unfolding opened_cell
    open_envelope_total raw = let (o, e, _) = envelope-Opens raw in rw (e, opened_cell) refl

    -- Whatever the envelope, what opens is a valid cell.
    pub opened_cell-IsValid :
        (raw : Bytes) (cell : Cell) → opened_cell r c identity raw ≡ some cell → IsValid cell
    unfolding opened_cell
    opened_cell-IsValid raw cell h =
        let (o, e, valid) = envelope-Opens raw in
        let h' : o ≡ some cell = rw (e, opened_cell) at h in valid cell h'

    pub open_all_total :
        (raws : List Bytes) → open_all r c identity raws ≡ some (opened_cells r c identity raws)
    unfolding open_all opened_cells Option.bind
    open_all_total [] = refl
    open_all_total (raw ∷ raws) = rw (open_envelope_total raw, open_all_total raws) refl

  push_some-IsValid :
      (o : Option Cell) (cells : List Cell)
      → ((cell : Cell) → o ≡ some cell → IsValid cell)
      → All IsValid cells
      → All IsValid (push_some r c o cells)
  unfolding push_some
  push_some-IsValid none cells h v = v
  push_some-IsValid (some cell) cells h v = (h cell refl, v)

  pub opened_cells-IsValid :
      (identity : KeyPair r c) (raws : List Bytes) → All IsValid (opened_cells r c identity raws)
  unfolding opened_cells
  opened_cells-IsValid identity [] = tt
  opened_cells-IsValid identity (raw ∷ raws) =
      push_some-IsValid (opened_cell r c identity raw) (opened_cells r c identity raws)
        (opened_cell-IsValid identity raw) (opened_cells-IsValid identity raws)
