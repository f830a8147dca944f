-- ===== src/Core/Reassembly.antt =====
-- crates/veil-core/src/reassembly.rs: cells are collected by message id until all have arrived.
-- A method returns its result beside the new state; `none` is a panic (an index out of range, a
-- failed `expect`).
pub mod Invariant
pub mod Slots
pub mod Missing
pub mod Complete
pub mod Shuffled
pub mod RoundTrip
pub mod Spec
use orf_veil.Prelude.{ℕ, suc, ◌+◌, List, [], ◌∷◌, ◌++◌, Option, none, some, ◌==◌, if◌then◌else◌}
use orf_veil.Prelude.{length, replicate, get_elem?, set}
use orf_veil.Prelude.Bytes.{Bytes}
use orf_veil.Prelude.Map.{Map, lookup, insert, remove}
use orf_veil.Prelude.Result.{ok, err}
use orf_veil.Core.Error.{VeilError, VeilResult}
use orf_veil.Core.Cell.{Cell, MessageId, real_payload}
use mathlib.Core.Option

pub record PartialMessage : Type 0 where
  pub seq_total : ℕ
  pub received : ℕ
  pub fragments : List (Option Bytes)

pub record Reassembler : Type 0 where
  pub in_flight : Map PartialMessage

-- `Reassembler::new`
abbrev pub new : Reassembler
new = record { in_flight = [] }

-- The value that `or_insert_with` makes.
unfoldable pub new_partial : ℕ → PartialMessage
new_partial seq_total = record {
  seq_total = seq_total;
  received = 0;
  fragments = replicate seq_total none;
}

-- `self.in_flight.entry(id).or_insert_with(..)`
unfoldable pub entry_or_new : MessageId → ℕ → Map PartialMessage → PartialMessage
entry_or_new id seq_total m = Option.get_or (lookup id m) (new_partial seq_total)

-- `if entry.fragments[seq_index].is_none() { .. }`
unfoldable pub store_fragment : ℕ → Bytes → PartialMessage → Option PartialMessage
store_fragment i payload p = elim (get_elem? p.fragments i) [
  | none ↦ none
  | some none ↦
      some (record p { received = p.received + 1; fragments = set p.fragments i (some payload) })
  | some (some _) ↦ some p
]

-- The loop that joins the fragments, each of which is expected to be there.
unfoldable pub join_fragments : List (Option Bytes) → Option Bytes
join_fragments [] = some []
join_fragments (none ∷ rest) = none
join_fragments (some f ∷ rest) = Option.map (λ m. f ++ m) (join_fragments rest)

abbrev pub Outcome : Type 0
Outcome = Option (VeilResult (Option Bytes) × Reassembler)

-- The test on `received` and what follows it; `p` is the entry after the store.
unfoldable pub finish : MessageId → Reassembler → PartialMessage → Outcome
finish id r p =
    let m = insert id p r.in_flight in
    if p.received == p.seq_total
    then Option.map (λ message. (ok (some message), record { in_flight = remove id m }))
        (join_fragments p.fragments)
    else some (ok none, record { in_flight = m })

-- `Reassembler::insert`. A new entry stays in the map also when an error is returned.
unfoldable pub insert_cell : Cell → Reassembler → Outcome
insert_cell cell r =
    let id = cell.message_id in
    let entry = entry_or_new id cell.seq_total r.in_flight in
    if entry.seq_total == cell.seq_total
    then Option.bind (store_fragment cell.seq_index (real_payload cell) entry) (finish id r)
    else some
        (err VeilError.mismatched_message_id, record { in_flight = insert id entry r.in_flight })

-- `Reassembler::pending_count`
unfoldable pub pending_count : Reassembler → ℕ
pending_count r = length r.in_flight

-- `Reassembler::evict`
unfoldable pub evict : MessageId → Reassembler → Reassembler
evict id r = record { in_flight = remove id r.in_flight }

-- A client that inserts cells one after the other; each result beside the id of its cell.
unfoldable pub insert_all :
    List Cell → Reassembler → Option (List (MessageId × VeilResult (Option Bytes)) × Reassembler)
insert_all [] r = some ([], r)
insert_all (cell ∷ cells) r = Option.bind (insert_cell cell r) (λ (out, r').
    Option.map (λ (outs, r''). ((cell.message_id, out) ∷ outs, r'')) (insert_all cells r'))
