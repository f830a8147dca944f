-- ===== src/Sdk/Delivery/Opened.antt =====
-- What a recipient reads, without reassembly, from the envelopes in any order.
use orf_veil.Prelude.{some, ◌≡◌, refl, ap, ◌∙◌, List, [], ◌∷◌, ◌++◌, none, All}
use orf_veil.Prelude.Bytes.{Bytes}
use orf_veil.External.Random.{Rng}
use orf_veil.External.Crypto.{Crypto}
use orf_veil.Core.Cell.{Cell}
use orf_veil.Core.Crypto.Keys.{KeyPair}
use orf_veil.Sdk.Receiver.{open_envelope, push_some}
use orf_veil.Sdk.Receiver.Opening.{opened_cell, opened_cells}
use orf_veil.Sdk.Delivery.Arrival.{swap_front}
use orf_veil.Sdk.Delivery.EndToEnd.{push_some-append, opened_cells-append}
use mathlib.Core.List.{Permᴰ, append-nil}
use mathlib.Core.List.Permᴰ
use mathlib.Core.Path.{subst}

module _ (r : Rng) (c : Crypto r) (identity : KeyPair r c) where
  -- What one envelope gives.
  abbrev given : Bytes → List Cell
  given raw = push_some r c (opened_cell r c identity raw) []

  opened_cells-step :
      (raw : Bytes) (raws : List Bytes)
      → opened_cells r c identity (raw ∷ raws) ≡ given raw ++ opened_cells r c identity raws
  unfolding opened_cells
  opened_cells-step raw raws =
      push_some-append r c (opened_cell r c identity raw) [] (opened_cells r c identity raws)

  pub opened_cells-perm :
      {xs ys : List Bytes}
      → Permᴰ xs ys
      → Permᴰ (opened_cells r c identity xs) (opened_cells r c identity ys)
  opened_cells-perm Permᴰ.nil = Permᴰ.refl _
  opened_cells-perm (Permᴰ.cons {a = a} {b = b} {l₁ = l₁} {l₂ = l₂} e p) =
      rw (opened_cells-step a l₁, opened_cells-step b l₂, e)
        (Permᴰ.append_left (given b) (opened_cells-perm p))
  opened_cells-perm (Permᴰ.swap {a = a} {b = b} {a' = a'} {b' = b'} {l = l} e f) =
      rw
        (
          opened_cells-step a (b ∷ l),
          opened_cells-step b l,
          opened_cells-step a' (b' ∷ l),
          opened_cells-step b' l,
          e,
          f,
        )
        (swap_front (given b') (given a') (opened_cells r c identity l))
  opened_cells-perm (Permᴰ.trans p q) = Permᴰ.trans (opened_cells-perm p) (opened_cells-perm q)

  -- The envelope is not for this recipient.
  abbrev pub IsSealed : Bytes → Type 0
  IsSealed raw = open_envelope r c identity raw ≡ some none

  opened_cells-IsSealed :
      (raws : List Bytes) → All IsSealed raws → opened_cells r c identity raws ≡ []
  unfolding opened_cells opened_cell push_some
  opened_cells-IsSealed [] h = refl
  opened_cells-IsSealed (raw ∷ raws) h =
      rw (h.0, opened_cell, push_some) (opened_cells-IsSealed raws h.1)

  -- Envelopes that open to the cells, in any order and among some that do not open, open to the cells
  -- in some order.
  pub opened_cells_arrived :
      (arrived raws others : List Bytes) (cells : List Cell)
      → opened_cells r c identity raws ≡ cells
      → All IsSealed others
      → Permᴰ arrived (raws ++ others)
      → Permᴰ (opened_cells r c identity arrived) cells
  opened_cells_arrived arrived raws others cells opens others_sealed p =
      let e =
        opened_cells-append r c identity raws others
        ∙ ap (λ l. opened_cells r c identity raws ++ l) (opened_cells-IsSealed others others_sealed)
        ∙ append-nil (opened_cells r c identity raws)
        ∙ opens in
      subst (Permᴰ (opened_cells r c identity arrived)) e (opened_cells-perm p)
