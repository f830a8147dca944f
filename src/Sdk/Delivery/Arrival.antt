-- ===== src/Sdk/Delivery/Arrival.antt =====
-- What the recipient makes of the envelopes.
use orf_veil.Prelude.{
  ℕ, ◌≡◌, refl, ap, sym, ◌∙◌, inl, inr, Bool-cases, true, false, List, [], ◌∷◌, ◌++◌, Option, none,
  some, All,
}
use orf_veil.Prelude.Bytes.{Bytes, bytes_eq, bytes_eq_refl}
use orf_veil.External.Random.{Rng}
use orf_veil.External.Crypto.{Crypto}
use orf_veil.Core.Cell.{Cell, MessageId}
use orf_veil.Core.Crypto.Keys.{KeyPair}
use orf_veil.Core.Fragmentation.Laws.{IsNumbered}
use orf_veil.Core.Reassembly.Complete.{own}
use orf_veil.Sdk.Receiver.{open_envelope, push_some}
use orf_veil.Sdk.Receiver.Opening.{opened_cell, opened_cells, opened_cell-some}
use mathlib.Core.List.{Permᴰ, append_assoc, append-nil}
use mathlib.Core.List.Permᴰ
use mathlib.Core.Path.{subst}

pub swap_front {ℓ} : {A : Type ℓ} (a b l : List A) → Permᴰ (a ++ (b ++ l)) (b ++ (a ++ l))
swap_front a b l =
    subst (λ t. Permᴰ t (b ++ (a ++ l))) (append_assoc a b l)
      (subst (λ t. Permᴰ ((a ++ b) ++ l) t) (append_assoc b a l)
        (Permᴰ.append_right l (Permᴰ.append_comm a b)))

module _ (r : Rng) (c : Crypto r) (identity : KeyPair r c) (id : MessageId) where
  -- The cells of the id among those that the envelopes open to.
  abbrev pub opened : List Bytes → List Cell
  opened raws = own id (opened_cells r c identity raws)

  -- What one envelope adds to them.
  abbrev added : Bytes → List Cell
  added raw = own id (push_some r c (opened_cell r c identity raw) [])

  own-push_some :
      (o : Option Cell) (cells : List Cell)
      → own id (push_some r c o cells) ≡ own id (push_some r c o []) ++ own id cells
  unfolding push_some own
  own-push_some none cells = refl
  own-push_some (some x) cells = elim (Bool-cases (bytes_eq x.message_id id)) [
    | inl e ↦ rw e refl
    | inr e ↦ rw e refl
  ]

  opened_step : (raw : Bytes) (raws : List Bytes) → opened (raw ∷ raws) ≡ added raw ++ opened raws
  unfolding opened_cells
  opened_step raw raws =
      own-push_some (opened_cell r c identity raw) (opened_cells r c identity raws)

  opened-perm : {xs ys : List Bytes} → Permᴰ xs ys → Permᴰ (opened xs) (opened ys)
  opened-perm Permᴰ.nil = Permᴰ.refl _
  opened-perm (Permᴰ.cons {a = a} {b = b} {l₁ = l₁} {l₂ = l₂} e p) =
      rw (opened_step a l₁, opened_step b l₂, e) (Permᴰ.append_left (added b) (opened-perm p))
  opened-perm (Permᴰ.swap {a = a} {b = b} {a' = a'} {b' = b'} {l = l} e f) =
      rw (opened_step a (b ∷ l), opened_step b l, opened_step a' (b' ∷ l), opened_step b' l, e, f)
        (swap_front (added b') (added a') (opened l))
  opened-perm (Permᴰ.trans p q) = Permᴰ.trans (opened-perm p) (opened-perm q)

  opened-append : (xs ys : List Bytes) → opened (xs ++ ys) ≡ opened xs ++ opened ys
  unfolding opened_cells own
  opened-append [] ys = refl
  opened-append (x ∷ xs) ys =
      opened_step x (xs ++ ys)
      ∙ ap (λ t. added x ++ t) (opened-append xs ys)
      ∙ sym (append_assoc (added x) (opened xs) (opened ys))
      ∙ ap (λ t. t ++ opened ys) (sym (opened_step x xs))

  -- The envelope opens to nothing, or to a cell of another message.
  abbrev pub IsForeign : Bytes → Type 0
  IsForeign raw =
      (cell : Cell)
      → open_envelope r c identity raw ≡ some (some cell)
      → bytes_eq cell.message_id id ≡ false

  foreign-push_some :
      (o : Option Cell)
      → ((cell : Cell) → o ≡ some cell → bytes_eq cell.message_id id ≡ false)
      → own id (push_some r c o []) ≡ []
  unfolding push_some own
  foreign-push_some none h = refl
  foreign-push_some (some x) h = rw (h x refl) refl

  opened-foreign : (raws : List Bytes) → All IsForeign raws → opened raws ≡ []
  unfolding opened_cells own
  opened-foreign [] h = refl
  opened-foreign (raw ∷ raws) h =
      opened_step raw raws
      ∙ rw
          (foreign-push_some (opened_cell r c identity raw)
            (λ cell e. h.0 cell (opened_cell-some r c identity raw cell e)))
          (opened-foreign raws h.1)

  -- The envelopes open to the cells, one each and in order.
  abbrev pub OpenTo : List Bytes → List Cell → Type 0
  OpenTo [] [] = Unit {0}
  OpenTo [] (x ∷ cells) = ⊥
  OpenTo (raw ∷ raws) [] = ⊥
  OpenTo (raw ∷ raws) (x ∷ cells) =
      (open_envelope r c identity raw ≡ some (some x)) × OpenTo raws cells

  opened-OpenTo :
      (total i : ℕ) (raws : List Bytes) (cells : List Cell)
      → IsNumbered id total i cells
      → OpenTo raws cells
      → opened raws ≡ cells
  unfolding opened_cells opened_cell own push_some
  opened-OpenTo total i [] [] n h = refl
  opened-OpenTo total i [] (x ∷ cells) n h = elim h [ ]
  opened-OpenTo total i (raw ∷ raws) [] n h = elim h [ ]
  opened-OpenTo total i (raw ∷ raws) (x ∷ cells) n h =
      let mine : bytes_eq x.message_id id ≡ true = rw n.0 (bytes_eq_refl id) in
      rw (h.0, opened_cell, push_some, mine) (ap (◌∷◌ x) (opened-OpenTo total _ raws cells n.3 h.1))

  -- The envelopes of a numbered run of cells, in any order and among those of other messages, open to
  -- those cells, as far as the id is concerned.
  pub opened_arrived :
      (total : ℕ) (arrived raws others : List Bytes) (cells : List Cell)
      → IsNumbered id total 0 cells
      → OpenTo raws cells
      → All IsForeign others
      → Permᴰ arrived (raws ++ others)
      → Permᴰ (opened arrived) cells
  opened_arrived total arrived raws others cells n h o p =
      let e =
        opened-append raws others
        ∙ ap (λ t. opened raws ++ t) (opened-foreign others o)
        ∙ append-nil (opened raws)
        ∙ opened-OpenTo total 0 raws cells n h in
      subst (Permᴰ (opened arrived)) e (opened-perm p)
