-- ===== src/Core/Crypto/Encryption.antt =====
-- crates/veil-core/src/crypto/encryption.rs: a cell under a 256-bit key, behind a fresh nonce. The
-- copies into the arrays panic when sizes differ, which is `none`.
use orf_veil.Prelude.{
  ℕ, ◌+◌, ◌-◌, refl, Option, none, inl, inr, Option-cases, ◌≡◌, ap, ◌∙◌, arith, some, ◌++◌, length,
  length-append, length-drop, All, All-append, take, drop, take-append_length, drop-append_length,
}
use orf_veil.Prelude.Bytes.{Bytes, IsByte}
use orf_veil.Prelude.Arrays.{copy_from_slice, copy_from_slice_fits}
use orf_veil.Prelude.Result.{ok, err}
use orf_veil.External.Random.{Rng, RngLaws}
use orf_veil.External.Crypto.{Crypto, CryptoLaws}
use orf_veil.Core.Error.{VeilError, VeilResult}
use orf_veil.Core.Cell.{Cell, cell_size, to_bytes, from_bytes}
use orf_veil.Core.Cell.Valid.{IsValid}
use orf_veil.Core.Cell.Wire.{
  length-to_bytes, to_bytes-IsByte, from_bytes-to_bytes, to_bytes-from_bytes, from_bytes-IsValid,
}
use mathlib.Core.Option

abbrev pub nonce_size : ℕ
nonce_size = 12

abbrev pub tag_size : ℕ
tag_size = 16

abbrev pub encrypted_cell_size : ℕ
encrypted_cell_size = nonce_size + cell_size + tag_size

module _ (r : Rng) (c : Crypto r) where
  -- The copies of the nonce and of the ciphertext into the output array.
  unfoldable pub copy_sealed : Bytes → Bytes → Option (VeilResult Bytes)
  copy_sealed nonce_bytes ciphertext =
      Option.bind (copy_from_slice nonce_size nonce_bytes) (λ front.
        Option.map (λ back. ok (front ++ back))
          (copy_from_slice (encrypted_cell_size - nonce_size) ciphertext))

  unfoldable pub encrypt_cell : Bytes → Cell → r.State → Option (VeilResult Bytes) × r.State
  unfolding copy_sealed
  encrypt_cell key cell s =
      let (nonce_bytes, s') = r.fill_bytes nonce_size s in
      (
        elim (c.encrypt key nonce_bytes (to_bytes cell)) [
          | none ↦ some (err VeilError.encryption_failed)
          | some ciphertext ↦ copy_sealed nonce_bytes ciphertext
        ],
        s',
      )

  -- The copy of the plaintext into the buffer, and the parsing of the buffer.
  unfoldable pub copy_plain : Bytes → Option (VeilResult Cell)
  copy_plain plaintext = Option.map from_bytes (copy_from_slice cell_size plaintext)

  unfoldable pub decrypt_cell : Bytes → Bytes → Option (VeilResult Cell)
  unfolding copy_plain
  decrypt_cell key bytes = elim (c.decrypt key (take nonce_size bytes) (drop nonce_size bytes)) [
    | none ↦ some (err VeilError.decryption_failed)
    | some plaintext ↦ copy_plain plaintext
  ]

  module _ (rng : RngLaws r) (laws : CryptoLaws r c) where
    copy_sealed_fits :
        (nonce_bytes ciphertext : Bytes)
        → length nonce_bytes ≡ nonce_size
        → length ciphertext ≡ encrypted_cell_size - nonce_size
        → copy_sealed nonce_bytes ciphertext ≡ some (ok (nonce_bytes ++ ciphertext))
    unfolding copy_sealed Option.bind
    copy_sealed_fits nonce_bytes ciphertext n m =
        rw
          (
            copy_from_slice_fits nonce_size nonce_bytes n,
            copy_from_slice_fits (encrypted_cell_size - nonce_size) ciphertext m,
          )
          refl

    -- A valid cell is encrypted, to exactly `encrypted_cell_size` bytes, and decrypts to itself; the
    -- sizes of all copies fit.
    pub decrypt_cell-encrypt_cell :
        (key : Bytes) (cell : Cell) (s : r.State)
        → IsValid cell
        → (sealed : Bytes) × ((encrypt_cell key cell s).0 ≡ some (ok sealed))
          × (length sealed ≡ encrypted_cell_size)
          × All IsByte sealed
          × (decrypt_cell key sealed ≡ some (ok cell))
    unfolding encrypt_cell decrypt_cell copy_plain
    decrypt_cell-encrypt_cell key cell s v =
        let nonce = (r.fill_bytes nonce_size s).0 in
        let size = length-to_bytes cell v in
        let (sealed, e) =
          laws.encrypt_total key nonce (to_bytes cell) (to_bytes-IsByte cell v) (omega arith) in
        let fits = laws.length-encrypt key nonce (to_bytes cell) sealed e in
        let n = rng.length-fill_bytes nonce_size s in
        (
          nonce ++ sealed,
          rw (e, encrypt_cell) (copy_sealed_fits nonce sealed n (omega arith)),
          omega (arith, length-append nonce sealed),
          All-append IsByte nonce sealed (rng.fill_bytes-IsByte nonce_size s)
              (laws.encrypt-IsByte key nonce (to_bytes cell) sealed e),
          rw
              (
                take-append_length nonce_size nonce sealed n,
                drop-append_length nonce_size nonce sealed n,
                laws.decrypt-encrypt key nonce (to_bytes cell) sealed e,
                decrypt_cell,
                copy_from_slice_fits cell_size (to_bytes cell) size,
                from_bytes-to_bytes cell v,
              )
              refl,
        )

    -- What is decrypted from `encrypted_cell_size` bytes fits the buffer of a cell.
    plain_size :
        (key input text : Bytes)
        → length input ≡ encrypted_cell_size
        → c.decrypt key (take nonce_size input) (drop nonce_size input) ≡ some text
        → length text ≡ cell_size
    plain_size key input text size e =
        let nonce = take nonce_size input in
        let seal = laws.encrypt-decrypt key nonce text (drop nonce_size input) e in
        omega (
          arith,
          laws.length-encrypt key nonce text (drop nonce_size input) seal,
          length-drop nonce_size input,
        )

    -- Decryption never panics on an input of the size of its type.
    pub decrypt_cell_total :
        (key input : Bytes)
        → length input ≡ encrypted_cell_size
        → (out : VeilResult Cell) × (decrypt_cell key input ≡ some out)
    unfolding decrypt_cell copy_plain
    decrypt_cell_total key input size =
        elim (Option-cases (c.decrypt key (take nonce_size input) (drop nonce_size input))) [
          | inl e ↦ (err VeilError.decryption_failed, rw (e, decrypt_cell) refl)
          | inr (text, e) ↦ (
            from_bytes text,
            rw
                (
                  e,
                  decrypt_cell,
                  copy_from_slice_fits cell_size text (plain_size key input text size e),
                )
                refl,
          )
        ]

    opened :
        (key input cell_bytes : Bytes) (cell : Cell)
        → length input ≡ encrypted_cell_size
        → c.decrypt key (take nonce_size input) (drop nonce_size input) ≡ some cell_bytes
        → from_bytes cell_bytes ≡ ok cell
        → IsValid cell
          × (c.encrypt key (take nonce_size input) (to_bytes cell) ≡ some (drop nonce_size input))
    opened key input text cell size e f =
        let nonce = take nonce_size input in
        let seal = laws.encrypt-decrypt key nonce text (drop nonce_size input) e in
        let n = plain_size key input text size e in
        let b = laws.decrypt-IsByte key nonce text (drop nonce_size input) e in
        (
          from_bytes-IsValid text cell n b f,
          ap (c.encrypt key nonce) (to_bytes-from_bytes text cell n b f) ∙ seal,
        )

    -- A cell that is decrypted from `encrypted_cell_size` bytes is valid, and behind the nonce the input
    -- is the sealing of the serialised cell under the key and that nonce.
    pub decrypt_cell-eq-ok :
        (key input : Bytes) (cell : Cell)
        → length input ≡ encrypted_cell_size
        → decrypt_cell key input ≡ some (ok cell)
        → IsValid cell
          × (c.encrypt key (take nonce_size input) (to_bytes cell) ≡ some (drop nonce_size input))
    unfolding decrypt_cell copy_plain
    decrypt_cell-eq-ok key input cell size h =
        elim (Option-cases (c.decrypt key (take nonce_size input) (drop nonce_size input))) [
          | inl e ↦ let h' = rw (e, decrypt_cell) at h in cc
          | inr (text, e) ↦
              let fits = copy_from_slice_fits cell_size text (plain_size key input text size e) in
              let h' = rw (e, decrypt_cell, fits) at h in
              let f : from_bytes text ≡ ok cell = cc in opened key input text cell size e f
        ]
