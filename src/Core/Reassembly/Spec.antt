-- ===== src/Core/Reassembly/Spec.antt =====
-- What a reassembler promises, without maps, vectors or counters: for each id the total and the
-- fragments that are there, as functions.
pub mod Views
pub mod Refines
use orf_veil.Prelude.{ℕ, zero, suc, ◌++◌, List, [], ◌∷◌, Option, none, some, ◌==◌, if◌then◌else◌}
use orf_veil.Prelude.Bytes.{Bytes, bytes_eq}
use orf_veil.Prelude.Result.{ok, err}
use orf_veil.Core.Error.{VeilError, VeilResult}
use orf_veil.Core.Cell.{Cell, MessageId, real_payload}
use mathlib.Core.Option

pub record Pending : Type 0 where
  pub total : ℕ
  pub slots : ℕ → Option Bytes

abbrev pub State : Type 0
State = MessageId → Option Pending

abbrev pub update : MessageId → Option Pending → State → State
update id v a = λ j. if bytes_eq id j then v else a j

-- The entry of an id; a new one has no fragments.
abbrev pub entry_of : MessageId → ℕ → State → Pending
entry_of id total a = Option.get_or (a id) (record { total = total; slots = λ i. none })

-- A fragment is put into its slot, where the first one stays: a later one is ignored, without an
-- error, also when its payload differs.
abbrev pub fill : ℕ → Bytes → (ℕ → Option Bytes) → ℕ → Option Bytes
fill i payload slots j = if j == i then some (Option.get_or (slots i) payload) else slots j

-- The fragments from `k` on, `n` of them, joined, if all are there.
unfoldable pub gather : ℕ → ℕ → (ℕ → Option Bytes) → Option Bytes
gather k zero slots = some []
gather k (suc n) slots =
    Option.bind (slots k) (λ f. Option.map (λ m. f ++ m) (gather (suc k) n slots))

-- The message, if it is complete, leaves the state; if not, the entry stays.
unfoldable pub settle :
    MessageId → Pending → Option Bytes → State → VeilResult (Option Bytes) × State
settle id p (some message) a = (ok (some message), update id none a)
settle id p none a = (ok none, update id (some p) a)

-- The insertion of a cell.
unfoldable pub insert_spec : Cell → State → VeilResult (Option Bytes) × State
unfolding gather settle
insert_spec cell a =
    let p = entry_of cell.message_id cell.seq_total a in
    let q : Pending = record {
      total = p.total;
      slots = fill cell.seq_index (real_payload cell) p.slots;
    } in
    if p.total == cell.seq_total
    then settle cell.message_id q (gather 0 q.total q.slots) a
    else (err VeilError.mismatched_message_id, update cell.message_id (some p) a)

-- The operations of a reassembler; a run collects the results of the insertions.
pub data Op : Type 0 where
  insert_op : Cell → Op
  evict_op : MessageId → Op

unfoldable pub run_spec : List Op → State → List (VeilResult (Option Bytes)) × State
unfolding insert_spec
run_spec [] a = ([], a)
run_spec (insert_op cell ∷ ops) a =
    let (out, a') = insert_spec cell a in let (outs, a'') = run_spec ops a' in (out ∷ outs, a'')
run_spec (evict_op id ∷ ops) a = run_spec ops (update id none a)
