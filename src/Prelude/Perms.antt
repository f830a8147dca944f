-- ===== src/Prelude/Perms.antt =====
-- Permutations of the library with native lengths and `All`.
use orf_veil.Prelude.Lists.{length, All}
use Prim.Native.Nat.{suc}
use mathlib.Core.Path.{◌≡◌, refl, ap, sym, ◌∙◌, subst}
use mathlib.Core.List.{List, [], ◌∷◌, ◌++◌, Perm, Permᴰ}
use mathlib.Core.List.Permᴰ
use mathlib.Core.Logic.{∥∥₁_elim}
use native.Mathlib.Nat.{ℕ_set}

module _ {ℓ κ} {A : Type ℓ} (P : A → Type κ) where
  pub All-Permᴰ : {xs ys : List A} → Permᴰ xs ys → All P xs → All P ys
  All-Permᴰ Permᴰ.nil h = tt
  All-Permᴰ (Permᴰ.cons e p) h = (subst P e h.0, All-Permᴰ p h.1)
  All-Permᴰ (Permᴰ.swap e f) h = (subst P f h.1.0, (subst P e h.0, h.1.1))
  All-Permᴰ (Permᴰ.trans p q) h = All-Permᴰ q (All-Permᴰ p h)

module _ {ℓ} {A : Type ℓ} where
  pub length-Permᴰ : {xs ys : List A} → Permᴰ xs ys → length xs ≡ length ys
  length-Permᴰ Permᴰ.nil = refl
  length-Permᴰ (Permᴰ.cons e p) = ap suc (length-Permᴰ p)
  length-Permᴰ (Permᴰ.swap e f) = refl
  length-Permᴰ (Permᴰ.trans p q) = length-Permᴰ p ∙ length-Permᴰ q

  pub All-prop {κ} : {P : A → Type κ} → ((a : A) → IsProp (P a)) → (xs : List A) → IsProp (All P xs)
  All-prop prop [] = hlevel
  All-prop prop (x ∷ xs) = hlevel (prop x, All-prop prop xs)

  pub length-perm : {xs ys : List A} → Perm xs ys → length xs ≡ length ys
  length-perm {xs} {ys} p = ∥∥₁_elim p (ℕ_set (length xs) (length ys)) (λ q. length-Permᴰ q)

  pub Permᴰ-symm : {xs ys : List A} → Permᴰ xs ys → Permᴰ ys xs
  Permᴰ-symm Permᴰ.nil = Permᴰ.nil
  Permᴰ-symm (Permᴰ.cons e p) = Permᴰ.cons (sym e) (Permᴰ-symm p)
  Permᴰ-symm (Permᴰ.swap e f) = Permᴰ.swap (sym f) (sym e)
  Permᴰ-symm (Permᴰ.trans p q) = Permᴰ.trans (Permᴰ-symm q) (Permᴰ-symm p)

  -- What is the same for equal elements passes from one list to its permutations.
  pub All-perm {κ} :
      {P : A → Type κ} {xs ys : List A}
      → ((a : A) → IsProp (P a))
      → Perm xs ys
      → All P xs
      → All P ys
  All-perm {P} {xs} {ys} prop p h = ∥∥₁_elim p (All-prop prop ys) (λ q. All-Permᴰ P q h)

  -- An element that is taken out of the second list and put into the first.
  pub Permᴰ-taken :
      (more kept sooner later : List A) (a : A)
      → Permᴰ more (a ∷ kept)
      → Permᴰ (more ++ (sooner ++ later)) (kept ++ (sooner ++ (a ∷ later)))
  Permᴰ-taken more kept sooner later a p = Permᴰ.trans (Permᴰ.append_right (sooner ++ later) p) (
      Permᴰ-symm (
        Permᴰ.trans (Permᴰ.append_left kept (Permᴰ.middle a sooner later))
          (Permᴰ.middle a kept (sooner ++ later))))

  -- An element that is put to the end of the second list.
  pub Permᴰ-moved :
      (kept sooner later : List A) (a : A)
      → Permᴰ (kept ++ ((sooner ++ later) ++ (a ∷ []))) (kept ++ (sooner ++ (a ∷ later)))
  Permᴰ-moved kept sooner later a = Permᴰ.append_left kept (
      Permᴰ.trans (Permᴰ.append_comm (sooner ++ later) (a ∷ []))
        (Permᴰ-symm (Permᴰ.middle a sooner later)))

  -- An element at the end of a part of a list.
  pub Permᴰ-inside :
      (before here after : List A) (a : A)
      → Permᴰ (before ++ ((here ++ (a ∷ [])) ++ after)) (a ∷ (before ++ (here ++ after)))
  Permᴰ-inside before here after a =
      Permᴰ.trans
        (Permᴰ.append_left before (Permᴰ.append_right after (Permᴰ.append_comm here (a ∷ []))))
        (Permᴰ.middle a before (here ++ after))
