-- ===== src/Core/Reassembly/Spec/Refines.antt =====
-- The reassembler implements its specification.
use orf_veil.Prelude.{
  ◌<◌, ◌≡◌, ◌≢◌, refl, ap, sym, ◌∙◌, arith, inl, inr, List, [], ◌∷◌, Option, none, some, Bool-cases,
  false, ◌==◌, ==_iff, All,
}
use orf_veil.Prelude.Bytes.{Bytes, bytes_eq}
use orf_veil.Prelude.Map.{insert, insert-HasUniqueKeys}
use orf_veil.Prelude.Result.{ok, err}
use orf_veil.Core.Error.{VeilError, VeilResult}
use orf_veil.Core.Cell.{Cell, MessageId, real_payload}
use orf_veil.Core.Reassembly.{
  PartialMessage, Reassembler, store_fragment, finish, insert_cell, evict,
}
use orf_veil.Core.Reassembly.Invariant.{
  IsValid, IsCounted, count_some-le, entry, entry_or_new-IsPending, store_fragment-IsCounted,
  finish_done, finish_more, join_fragments_full, insert_cell-store, insert_cell_mismatch,
  evict-IsValid, insert-IsValid, remove-IsValid,
}
use orf_veil.Core.Reassembly.Spec.{
  Pending, State, update, gather, settle, insert_spec, Op, insert_op, evict_op, run_spec,
}
use orf_veil.Core.Reassembly.Spec.Views.{
  view_entry, view, view-entry_or_new, view-store_fragment, gather-join_fragments,
  join_fragments_open, view-insert, view-remove, slot_at,
}
use mathlib.Core.Path.{fun_ext}
use native.Mathlib.Decide.{ℕ_discrete}
use mathlib.Core.Option

-- The outcome of a step is that of the specification.
abbrev pub Matches :
    Option (VeilResult (Option Bytes) × Reassembler) → VeilResult (Option Bytes) × State → Type 0
Matches o s =
    (out : VeilResult (Option Bytes)) × (r' : Reassembler) × (o ≡ some (out, r'))
    × IsValid r'
    × (s ≡ (out, view r'))

update-update :
    (id : MessageId) (p q : Option Pending) (a : State)
    → update id p (update id q a) ≡ update id p a
update-update id p q a =
    fun_ext λ j. elim (Bool-cases (bytes_eq id j)) [ inl e ↦ rw e refl | inr e ↦ rw e refl ]

module _ (r : Reassembler) (v : IsValid r) where
  finish-Matches :
      (id : MessageId) (p : PartialMessage)
      → IsCounted p
      → Matches
          (finish id r p)
          (settle id (view_entry p) (gather 0 p.seq_total (slot_at p.fragments)) (view r))
  unfolding settle
  finish-Matches id p c =
      let n =
        ap (λ k. gather 0 k (slot_at p.fragments)) (sym c.slots)
        ∙ gather-join_fragments p.fragments in
      elim (ℕ_discrete p.received p.seq_total) [
        | yes done ↦
            let (m, j) = join_fragments_full p.fragments (omega (arith, c.slots, c.counted)) in
            let u = insert-HasUniqueKeys id p r.in_flight v.unique in
            let seen =
              view-remove id (insert id p r.in_flight) u
              ∙ ap (update id none) (view-insert id p r.in_flight)
              ∙ update-update id none (some (view_entry p)) (view r) in
            (
              ok (some m),
              _,
              finish_done id r p m done j,
              remove-IsValid id r v p,
              rw (n, j) (ap (λ a. (ok (some m), a)) (sym seen)),
            )
        | no more ↦
            let less : p.received < p.seq_total =
              omega (arith, c.slots, c.counted, count_some-le p.fragments) in
            (
              ok none,
              _,
              finish_more id r p less,
              insert-IsValid id r v p (record { sound = c; incomplete = less }),
              rw (n, join_fragments_open p.fragments (omega (arith, c.slots, c.counted)))
                  (ap (λ a. (ok none, a)) (sym (view-insert id p r.in_flight))),
            )
      ]

  module _ (cell : Cell) (h : cell.seq_index < cell.seq_total) where
    abbrev before : PartialMessage
    before = entry cell r

    insert_spec-store :
        (q : PartialMessage)
        → before.seq_total ≡ cell.seq_total
        → store_fragment cell.seq_index (real_payload cell) before ≡ some q
        → q.seq_total ≡ before.seq_total
        → insert_spec cell (view r)
          ≡ settle cell.message_id
              (view_entry q)
              (gather 0 q.seq_total (slot_at q.fragments))
              (view r)
    unfolding insert_spec
    insert_spec-store q e s t =
        rw
          (
            ← view-entry_or_new cell.message_id cell.seq_total r.in_flight,
            (==_iff before.seq_total cell.seq_total).1 e,
            ← view-store_fragment cell.seq_index (real_payload cell) before q s,
            t,
          )
          refl

    insert_spec-mismatch :
        before.seq_total ≢ cell.seq_total
        → insert_spec cell (view r) ≡ (
          err VeilError.mismatched_message_id,
          update cell.message_id (some (view_entry before)) (view r),
        )
    unfolding insert_spec
    insert_spec-mismatch e =
        let f : (before.seq_total == cell.seq_total) ≡ false = ground arith in
        rw (← view-entry_or_new cell.message_id cell.seq_total r.in_flight, f) refl

    insert_stored-Matches :
        before.seq_total ≡ cell.seq_total
        → (q : PartialMessage) × (store_fragment cell.seq_index (real_payload cell) before ≡ some q)
          × IsCounted q
          × (q.seq_total ≡ before.seq_total)
        → Matches (insert_cell cell r) (insert_spec cell (view r))
    insert_stored-Matches e (q, s, c, t) =
        rw (insert_cell-store cell r q e s, insert_spec-store q e s t)
          (finish-Matches cell.message_id q c)

    -- One insertion.
    pub insert_cell-Matches : Matches (insert_cell cell r) (insert_spec cell (view r))
    insert_cell-Matches =
        let g = entry_or_new-IsPending cell.message_id cell.seq_total r (omega arith) v in
        elim (ℕ_discrete before.seq_total cell.seq_total) [
          | yes e ↦ insert_stored-Matches e (
              store_fragment-IsCounted cell.seq_index (real_payload cell) before g.sound
                (omega arith))
          | no e ↦ (
            err VeilError.mismatched_message_id,
            _,
            insert_cell_mismatch cell r e,
            insert-IsValid cell.message_id r v before g,
            insert_spec-mismatch e
                ∙ ap (λ a. (err VeilError.mismatched_message_id, a))
                    (sym (view-insert cell.message_id before r.in_flight)),
          )
        ]

-- A client that performs the operations one after the other.
unfoldable pub run_ops :
    List Op → Reassembler → Option (List (VeilResult (Option Bytes)) × Reassembler)
run_ops [] r = some ([], r)
run_ops (insert_op cell ∷ ops) r =
    Option.bind (insert_cell cell r)
      (λ (out, r'). Option.map (λ (outs, r''). (out ∷ outs, r'')) (run_ops ops r'))
run_ops (evict_op id ∷ ops) r = run_ops ops (evict id r)

-- The cells have their index below their total, as every valid cell has.
abbrev pub OpInSequence : Op → Type 0
OpInSequence (insert_op cell) = cell.seq_index < cell.seq_total
OpInSequence (evict_op id) = Unit {0}

abbrev pub Refines : List Op → Reassembler → Type 0
Refines ops r =
    (outs : List (VeilResult (Option Bytes))) × (r' : Reassembler) × (run_ops ops r
      ≡ some (outs, r'))
    × IsValid r'
    × (run_spec ops (view r) ≡ (outs, view r'))

insert_step :
    (cell : Cell) (ops : List Op) (r : Reassembler)
    → Matches (insert_cell cell r) (insert_spec cell (view r))
    → ((r' : Reassembler) → IsValid r' → Refines ops r')
    → Refines (insert_op cell ∷ ops) r
unfolding run_ops run_spec Option.bind
insert_step cell ops r (out, r1, e, v, s) rest =
    let (outs, r2, e2, v2, s2) = rest r1 v in (out ∷ outs, r2, rw (e, e2) refl, v2, rw (s, s2) refl)

view-evict :
    (id : MessageId) (r : Reassembler) → IsValid r → view (evict id r) ≡ update id none (view r)
unfolding evict
view-evict id r v = view-remove id r.in_flight v.unique

-- From a valid reassembler every sequence of insertions, of cells with their index below their total,
-- and evictions runs without a panic, with the results and the final view of the specification. Of the
-- cells with one id and one index the first one stays there, also when a later one has another payload.
pub run_ops-Refines :
    (ops : List Op) (r : Reassembler) → IsValid r → All OpInSequence ops → Refines ops r
unfolding run_ops run_spec
run_ops-Refines [] r v h = ([], r, refl, v, refl)
run_ops-Refines (insert_op cell ∷ ops) r v h =
    insert_step cell ops r (insert_cell-Matches r v cell h.0)
      (λ r' v'. run_ops-Refines ops r' v' h.1)
run_ops-Refines (evict_op id ∷ ops) r v h =
    let (outs, r', e, v', s) = run_ops-Refines ops (evict id r) (evict-IsValid id r v) h.1 in
    (outs, r', e, v', rw (← view-evict id r v) s)
