-- ===== src/Core/Reassembly/Shuffled.antt =====
-- Whole runs of the reassembler: the cells of one message, in any order and mixed with the cells of
-- other messages.
use orf_veil.Prelude.{suc, ◌<◌, ◌≡◌, ◌≢◌, refl, ap, sym, ◌∙◌, arith, inl, inr}
use orf_veil.Prelude.{List, [], ◌∷◌, Bool-cases, true, false, Option, none, some, length, All}
use orf_veil.Prelude.Bytes.{Bytes, bytes_eq}
use orf_veil.Prelude.Map.{lookup}
use orf_veil.Prelude.Result.{ok, err}
use orf_veil.Core.Error.{VeilResult}
use orf_veil.Core.Cell.{Cell, MessageId}
use orf_veil.Core.Fragmentation.Chunks.{concat}
use orf_veil.Core.Reassembly.{
  Reassembler, PartialMessage, insert_cell, insert_all, entry_or_new, new_partial,
}
use orf_veil.Core.Reassembly.Invariant.{IsValid, insert_cell-RunsTo, remove-IsValid, insert-IsValid}
use orf_veil.Core.Reassembly.Missing.{
  Distinct, IsMissing, IsWaiting, after_store, after_store-IsWaiting, after_store-IsMissing,
}
use orf_veil.Core.Reassembly.Complete.{
  own, messages_for, InSequence, entry_in, stored, removed, step_more, step_last, entry_in-stored,
  lookup-removed,
}
use mathlib.Core.Path.{subst}
use mathlib.Core.Option

module _ (id : MessageId) where
  -- The run does not panic, returns these messages under the id, and leaves no entry for it.
  abbrev pub Finishes : List Cell → Reassembler → List Bytes → Type 0
  Finishes cells r messages =
      (outs : List (MessageId × VeilResult (Option Bytes))) × (r' : Reassembler) × (insert_all cells
          r
        ≡ some (outs, r'))
      × (messages_for id outs ≡ messages)
      × IsValid r'
      × (lookup id r'.in_flight ≡ none)

  module _ (c : Cell) (cells : List Cell) (r r1 : Reassembler) (messages : List Bytes) where
    own-true : bytes_eq c.message_id id ≡ true → own id (c ∷ cells) ≡ c ∷ own id cells
    unfolding own
    own-true e = rw e

    own-false : bytes_eq c.message_id id ≡ false → own id (c ∷ cells) ≡ own id cells
    unfolding own
    own-false e = rw e

    Finishes-none :
        insert_cell c r ≡ some (ok none, r1)
        → Finishes cells r1 messages
        → Finishes (c ∷ cells) r messages
    unfolding insert_all messages_for Option.bind
    Finishes-none e (outs, r', run, m, v, l) =
        ((c.message_id, ok none) ∷ outs, r', rw (e, run), m, v, l)

    Finishes-some :
        (m : Bytes)
        → bytes_eq c.message_id id ≡ true
        → insert_cell c r ≡ some (ok (some m), r1)
        → Finishes cells r1 messages
        → Finishes (c ∷ cells) r (m ∷ messages)
    unfolding insert_all messages_for Option.bind
    Finishes-some m mine e (outs, r', run, ms, v, l) =
        ((c.message_id, ok (some m)) ∷ outs, r', rw (e, run), rw (mine, ms), v, l)

    Finishes-other :
        (out : VeilResult (Option Bytes))
        → bytes_eq c.message_id id ≡ false
        → insert_cell c r ≡ some (out, r1)
        → Finishes cells r1 messages
        → Finishes (c ∷ cells) r messages
    unfolding insert_all messages_for Option.bind
    Finishes-other (ok none) other e (outs, r', run, ms, v, l) =
        ((c.message_id, ok none) ∷ outs, r', rw (e, run), ms, v, l)
    Finishes-other (ok (some m)) other e (outs, r', run, ms, v, l) =
        ((c.message_id, ok (some m)) ∷ outs, r', rw (e, run), rw (other, ms), v, l)
    Finishes-other (err x) other e (outs, r', run, ms, v, l) =
        ((c.message_id, err x) ∷ outs, r', rw (e, run), ms, v, l)

  cons≢nil : {x : Cell} {xs : List Cell} → x ∷ xs ≢ []
  cons≢nil e = cc

  -- Without cells of the id nothing is returned for it.
  quiet :
      (cells : List Cell) (r : Reassembler)
      → IsValid r
      → All InSequence cells
      → own id cells ≡ []
      → lookup id r.in_flight ≡ none
      → Finishes cells r []
  quiet [] r v s e l = unfold insert_all messages_for in ([], r, refl, refl, v, l)
  quiet (c ∷ cells) r v s e l = elim (Bool-cases (bytes_eq c.message_id id)) [
    | inl mine ↦ absurd (cons≢nil (sym (own-true c cells r r [] mine) ∙ e))
    | inr other ↦
        let (out, r1, run, v1, frame) = insert_cell-RunsTo c r v s.0 in
        Finishes-other c cells r r1 [] out other run
          (quiet cells r1 v1 s.1 (sym (own-false c cells r r [] other) ∙ e) (frame id other ∙ l))
  ]

  module _ (parts : List Bytes) where
    -- The entry waits for exactly these cells.
    abbrev pub IsAwaitedBy : PartialMessage → List Cell → Type 0
    IsAwaitedBy p cells =
        IsWaiting parts p (length cells) × All (IsMissing parts p) cells × Distinct cells

    abbrev pub Awaits : Reassembler → List Cell → Type 0
    Awaits r cells = IsAwaitedBy (entry_in id parts r) cells

    awaited_own :
        (c : Cell) (cells : List Cell) (r : Reassembler) (later : List Cell)
        → IsValid r
        → All InSequence cells
        → (mine : bytes_eq c.message_id id ≡ true) → own id cells ≡ later
        → Awaits r (c ∷ later)
        → ((r' : Reassembler)
            → IsValid r'
            → All InSequence cells
            → 0 < length (own id cells)
            → Awaits r' (own id cells)
            → Finishes cells r' (concat parts ∷ []))
        → Finishes (c ∷ cells) r (concat parts ∷ [])
    awaited_own c cells r [] v s mine e (w, m, d) recurse =
        let r' = removed id parts c r mine in
        Finishes-some c cells r r' [] (concat parts) mine (step_last id parts c r mine w m.0) (
          quiet cells r'
            (remove-IsValid c.message_id r v (after_store parts (entry_in id parts r) c)) s e
            (lookup-removed id parts c r mine v))
    awaited_own c cells r (x ∷ later) v s mine e (w, m, d) recurse =
        let p = entry_in id parts r in
        let r' = stored id parts c r mine in
        let n = length later in
        let w' : IsWaiting parts (after_store parts p c) (suc n) =
          after_store-IsWaiting parts p c n m.0 w in
        let a : Awaits r' (x ∷ later) =
          subst (λ q. IsAwaitedBy q (x ∷ later)) (sym (entry_in-stored id parts c r mine))
            (w', after_store-IsMissing parts p c (x ∷ later) d.0 m.1, d.1) in
        Finishes-none c cells r r' (concat parts ∷ []) (step_more id parts c r mine n w m.0) (
          recurse r' (insert-IsValid c.message_id r v (after_store parts p c) w'.pending) s
            (rw e (omega arith)) (rw e a))

    -- From an entry that awaits the cells of the id, the run returns the message, once.
    pub awaited_message :
        (cells : List Cell) (r : Reassembler)
        → IsValid r
        → All InSequence cells
        → 0 < length (own id cells)
        → Awaits r (own id cells)
        → Finishes cells r (concat parts ∷ [])
    awaited_message [] r v s h a = unfold own in absurd (omega arith)
    awaited_message (c ∷ cells) r v s h a = elim (Bool-cases (bytes_eq c.message_id id)) [
      | inl mine ↦
          awaited_own c cells r (own id cells) v s.1 mine refl
            (rw (own-true c cells r r [] mine) at a) (awaited_message cells)
      | inr other ↦
          let (out, r1, run, v1, frame) = insert_cell-RunsTo c r v s.0 in
          let e = own-false c cells r r [] other in
          let same : entry_in id parts r1 ≡ entry_in id parts r =
            unfold entry_or_new in
            ap (λ o. Option.get_or o (new_partial (length parts))) (frame id other) in
          let a' : Awaits r (own id cells) = rw e at a in
          Finishes-other c cells r r1 (concat parts ∷ []) out other run
            (awaited_message cells r1 v1 s.1 (rw e at h) (rw same a'))
    ]
