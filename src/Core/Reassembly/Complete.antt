-- ===== src/Core/Reassembly/Complete.antt =====
-- Cells of one message, each once and in any order, mixed with the cells of other messages: the
-- message comes out once, with its last cell.
use orf_veil.Prelude.{ℕ, suc, ◌<◌, ◌≡◌, ap, ap₂, sym, ◌∙◌, arith}
use orf_veil.Prelude.{List, [], ◌∷◌, true, if◌then◌else◌, Option, none, some, length, length-set}
use orf_veil.Prelude.Bytes.{Bytes, bytes_eq, bytes_eq_iff}
use orf_veil.Prelude.Map.{
  lookup, lookup-insert, lookup-remove, insert, remove, insert-HasUniqueKeys,
}
use orf_veil.Prelude.Result.{ok, err}
use orf_veil.Core.Error.{VeilResult}
use orf_veil.Core.Cell.{Cell, MessageId, real_payload}
use orf_veil.Core.Fragmentation.Chunks.{concat}
use orf_veil.Core.Reassembly.{
  PartialMessage, Reassembler, entry_or_new, store_fragment, finish, insert_cell,
}
use orf_veil.Core.Reassembly.Invariant.{
  IsValid, count_some, entry, finish_done, finish_more, insert_cell-store,
}
use orf_veil.Core.Reassembly.Missing.{
  IsMissing, IsWaiting, after_store, store_missing, after_store-count, after_store-IsWaiting,
}
use orf_veil.Core.Reassembly.Slots.{set-Agrees, join-Agrees}

-- The cells with the id, in their order.
unfoldable pub own : MessageId → List Cell → List Cell
own id [] = []
own id (c ∷ cells) = if bytes_eq c.message_id id then c ∷ own id cells else own id cells

-- The messages that the insertions under the id returned.
unfoldable pub messages_for : MessageId → List (MessageId × VeilResult (Option Bytes)) → List Bytes
messages_for id [] = []
messages_for id ((j, ok (some m)) ∷ outs) =
    if bytes_eq j id then m ∷ messages_for id outs else messages_for id outs
messages_for id ((j, ok none) ∷ outs) = messages_for id outs
messages_for id ((j, err e) ∷ outs) = messages_for id outs

abbrev pub InSequence : Cell → Type 0
InSequence c = c.seq_index < c.seq_total

module _ (id : MessageId) (parts : List Bytes) where
  -- The entry of the message, found or new.
  abbrev pub entry_in : Reassembler → PartialMessage
  entry_in r = entry_or_new id (length parts) r.in_flight

  module _ (c : Cell) (r : Reassembler) (mine : bytes_eq c.message_id id ≡ true) where
    abbrev p : PartialMessage
    p = entry_in r

    same_id : c.message_id ≡ id
    same_id = (bytes_eq_iff c.message_id id).0 mine

    same_entry : IsMissing parts p c → entry c r ≡ p
    same_entry m = ap₂ (λ j n. entry_or_new j n r.in_flight) same_id m.total

    insert_missing :
        (n : ℕ)
        → IsWaiting parts p n
        → IsMissing parts p c
        → insert_cell c r ≡ finish c.message_id r (after_store parts p c)
    insert_missing n w m =
        insert_cell-store c r (after_store parts p c)
          (ap (λ q. q.seq_total) (same_entry m) ∙ w.total ∙ sym m.total)
          (ap (λ q. store_fragment c.seq_index (real_payload c) q) (same_entry m)
            ∙ store_missing parts p c m)

    abbrev pub stored : Reassembler
    stored = record { in_flight = insert c.message_id (after_store parts p c) r.in_flight }

    abbrev pub removed : Reassembler
    removed = record { in_flight = remove c.message_id stored.in_flight }

    -- A missing cell that is not the last is kept.
    pub step_more :
        (n : ℕ)
        → IsWaiting parts p (suc (suc n))
        → IsMissing parts p c
        → insert_cell c r ≡ some (ok none, stored)
    step_more n w m =
        insert_missing (suc (suc n)) w m
        ∙ finish_more c.message_id r (after_store parts p c)
            (after_store-IsWaiting parts p c n m w).pending.incomplete

    pub entry_in-stored : entry_in stored ≡ after_store parts p c
    unfolding entry_or_new
    entry_in-stored = rw (lookup-insert c.message_id id (after_store parts p c) r.in_flight, mine)

    -- The last missing cell completes the message, whose entry leaves the map.
    pub step_last :
        IsWaiting parts p 1
        → IsMissing parts p c
        → insert_cell c r ≡ some (ok (some (concat parts)), removed)
    step_last w m =
        let q = after_store parts p c in
        let full : count_some q.fragments ≡ length parts =
          omega (arith, after_store-count parts p c m, w.rest) in
        let slots : length q.fragments ≡ length parts =
          length-set p.fragments c.seq_index (some (real_payload c))
          ∙ w.pending.sound.slots
          ∙ w.total in
        insert_missing 1 w m
        ∙ finish_done c.message_id r q (concat parts)
            (omega (arith, after_store-count parts p c m, w.rest, w.total, w.pending.sound.counted))
            (join-Agrees q.fragments parts
              (set-Agrees p.fragments parts c.seq_index (real_payload c) m.part w.agrees)
              (full ∙ sym slots))

    pub lookup-removed : IsValid r → lookup id removed.in_flight ≡ none
    lookup-removed v = rw (
      lookup-remove c.message_id id stored.in_flight
          (insert-HasUniqueKeys c.message_id (after_store parts p c) r.in_flight v.unique),
      mine,
    )
