-- ===== src/Core/Reassembly/RoundTrip.antt =====
-- Fragmentation and reassembly are inverse, whatever the order of arrival.
use orf_veil.Prelude.{ℕ, zero, suc, ◌<◌, ◌≡◌, ◌≢◌, refl, ap, sym, ◌∙◌, arith}
use orf_veil.Prelude.{List, [], ◌∷◌, none, some, map, length, length-map, All, get_elem?, drop}
use orf_veil.Prelude.Bytes.{Bytes}
use orf_veil.Prelude.Perms.{All-Permᴰ, length-Permᴰ, Permᴰ-symm}
use orf_veil.Prelude.Map.{lookup}
use orf_veil.Core.Cell.Valid
use orf_veil.Core.Cell.{Cell, MessageId, real_payload}
use orf_veil.Core.Fragmentation.Laws.{IsNumbered, IsFragmentation}
use orf_veil.Core.Reassembly.{Reassembler, PartialMessage, entry_or_new, new_partial}
use orf_veil.Core.Reassembly.Invariant.{IsValid, new_partial-IsPending, count_some-replicate}
use orf_veil.Core.Reassembly.Slots.{replicate-Agrees, get_elem?-replicate}
use orf_veil.Core.Reassembly.Missing.{Distinct, IsMissing, IsWaiting}
use orf_veil.Core.Reassembly.Complete.{own, InSequence, entry_in}
use orf_veil.Core.Reassembly.Shuffled.{Finishes, IsAwaitedBy, awaited_message}
use mathlib.Core.Path.{subst}
use mathlib.Core.List.{Permᴰ}

-- The index of the cell is not among those of the cells.
abbrev IsApart : List Cell → Cell → Type 0
IsApart cells c = All (λ d. c.seq_index ≢ d.seq_index) cells

Distinct-perm : {xs ys : List Cell} → Permᴰ xs ys → Distinct xs → Distinct ys
Distinct-perm Permᴰ.nil h = tt
Distinct-perm (Permᴰ.cons {b = b} {l₂ = l₂} e p) h =
    (subst (IsApart l₂) e (All-Permᴰ _ p h.0), Distinct-perm p h.1)
Distinct-perm (Permᴰ.swap {l = l} e f) h = (
  (
    λ q. h.0.0 (ap (λ c. c.seq_index) e ∙ sym q ∙ sym (ap (λ c. c.seq_index) f)),
    subst (IsApart l) f h.1.0,
  ),
  (subst (IsApart l) e h.0.1, h.1.1),
)
Distinct-perm (Permᴰ.trans p q) h = Distinct-perm q (Distinct-perm p h)

get_elem?-drop :
    (k : ℕ) (parts : List Bytes) (x : Bytes) (xs : List Bytes)
    → drop k parts ≡ x ∷ xs
    → (get_elem? parts k ≡ some x) × (drop (suc k) parts ≡ xs)
unfolding drop get_elem?
get_elem?-drop zero [] x xs h = cc
get_elem?-drop zero (y ∷ parts) x xs h = (cc, cc)
get_elem?-drop (suc k) [] x xs h = cc
get_elem?-drop (suc k) (y ∷ parts) x xs h = get_elem?-drop k parts x xs h

module _ (id : MessageId) (parts : List Bytes) where
  -- Numbered cells are missing from an entry with empty slots.
  numbered-IsMissing :
      (p : PartialMessage) (k : ℕ) (cells : List Cell)
      → IsNumbered id (length parts) k cells
      → drop k parts ≡ map real_payload cells
      → ((i : ℕ) → i < length parts → get_elem? p.fragments i ≡ some none)
      → All InSequence cells
      → All (IsMissing parts p) cells
  numbered-IsMissing p k [] n e h s = tt
  numbered-IsMissing p k (c ∷ cells) n e h s =
      let (here, later) = get_elem?-drop k parts (real_payload c) (map real_payload cells) e in
      (
        record {
          total = n.1;
          part = ap (get_elem? parts) n.2 ∙ here;
          empty = h c.seq_index (omega (arith, s.0, n.1));
        },
        numbered-IsMissing p (suc k) cells n.3 later h s.1,
      )

  numbered-IsApart :
      (total j k : ℕ) (c : Cell) (cells : List Cell)
      → c.seq_index ≡ j
      → j < k
      → IsNumbered id total k cells
      → IsApart cells c
  numbered-IsApart total j k c [] e h n = tt
  numbered-IsApart total j k c (d ∷ cells) e h n =
      (λ q. omega (arith, n.2), numbered-IsApart total j (suc k) c cells e (omega arith) n.3)

  numbered-Distinct :
      (total k : ℕ) (cells : List Cell) → IsNumbered id total k cells → Distinct cells
  numbered-Distinct total k [] n = tt
  numbered-Distinct total k (c ∷ cells) n = (
    numbered-IsApart total k (suc k) c cells n.2 (omega arith) n.3,
    numbered-Distinct total (suc k) cells n.3,
  )

pub valid-InSequence : (cells : List Cell) → All Valid.IsValid cells → All InSequence cells
valid-InSequence [] v = tt
valid-InSequence (c ∷ cells) v = (v.0.in_sequence, valid-InSequence cells v.1)

module _ (id : MessageId) (message : Bytes) (cells : List Cell)
    (f : IsFragmentation id message cells) where
  abbrev parts : List Bytes
  parts = map real_payload cells

  abbrev count : length parts ≡ length cells
  count = length-map real_payload cells

  fresh-IsWaiting : IsWaiting parts (new_partial (length parts)) (length cells)
  unfolding new_partial
  fresh-IsWaiting = record {
    pending = new_partial-IsPending (length parts) (omega (arith, count, f.nonempty));
    total = refl;
    agrees = replicate-Agrees parts;
    rest = omega (arith, count, count_some-replicate (length parts));
  }

  fresh-IsMissing : All (IsMissing parts (new_partial (length parts))) cells
  unfolding new_partial drop
  fresh-IsMissing =
      numbered-IsMissing id parts _ 0 cells (rw count f.numbered) refl
        (λ i h. get_elem?-replicate (length parts) i none h) (valid-InSequence cells f.valid)

  entry_in-fresh :
      (r : Reassembler)
      → lookup id r.in_flight ≡ none
      → entry_in id parts r ≡ new_partial (length parts)
  unfolding entry_or_new
  entry_in-fresh r e = rw e

  -- Into a valid reassembler without an entry for the id arrive cells with their index below their
  -- total, and among them the cells of a fragmented message, each once and in any order. Then no
  -- insertion panics, the message is returned exactly once under the id, and no entry for it is left.
  pub reassemble-fragments :
      (arrived : List Cell) (r : Reassembler)
      → IsValid r
      → lookup id r.in_flight ≡ none
      → All InSequence arrived
      → Permᴰ (own id arrived) cells
      → Finishes id arrived r (message ∷ [])
  reassemble-fragments arrived r v e s p =
      let back = Permᴰ-symm p in
      let many : length (own id arrived) ≡ length cells = length-Permᴰ p in
      let a : IsAwaitedBy id parts (new_partial (length parts)) (own id arrived) = (
        rw many fresh-IsWaiting,
        All-Permᴰ (IsMissing parts (new_partial (length parts))) back fresh-IsMissing,
        Distinct-perm back (numbered-Distinct id parts (length cells) 0 cells f.numbered),
      ) in
      subst (λ m. Finishes id arrived r (m ∷ [])) f.joined
        (awaited_message id parts arrived r v s (omega (arith, many, f.nonempty))
          (subst (λ q. IsAwaitedBy id parts q (own id arrived)) (sym (entry_in-fresh r e)) a))
