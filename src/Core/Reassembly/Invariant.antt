-- ===== src/Core/Reassembly/Invariant.antt =====
-- The invariant of the reassembler: no operation panics, and the counts are right.
use orf_veil.Prelude.{ℕ, zero, suc, ◌+◌, ◌≤◌, ◌<◌, ◌≡◌, refl, sym, ◌∙◌, arith, inl, inr}
use orf_veil.Prelude.{
  List, [], ◌∷◌, ◌++◌, Option, none, some, length, replicate, get_elem?, set, length-set,
  length-replicate,
}
use orf_veil.Prelude.{==_iff, ◌≢◌, Option-cases, false}
use orf_veil.Prelude.Bytes.{Bytes, bytes_eq}
use orf_veil.Prelude.Map.{
  lookup, lookup-insert, lookup-remove, insert, remove, HasUniqueKeys, AllValues, lookup-AllValues,
  insert-AllValues, remove-AllValues, remove-insert-AllValues, insert-HasUniqueKeys,
  remove-HasUniqueKeys,
}
use mathlib.Core.Option
use native.Mathlib.Decide.{ℕ_discrete}
use orf_veil.Prelude.Result.{ok, err}
use orf_veil.Core.Error.{VeilError, VeilResult}
use orf_veil.Core.Cell.{Cell, MessageId, real_payload}
use orf_veil.Core.Reassembly.{
  PartialMessage, Reassembler, Outcome, new_partial, entry_or_new, store_fragment, join_fragments,
  finish, insert_cell, evict,
}

-- How many fragments are there.
unfoldable pub count_some : List (Option Bytes) → ℕ
count_some [] = 0
count_some (none ∷ fs) = count_some fs
count_some (some f ∷ fs) = suc (count_some fs)

-- An entry has a slot for each fragment and counts those that are filled.
pub record IsCounted (p : PartialMessage) : Type 0 where
  pub slots : length p.fragments ≡ p.seq_total
  pub counted : p.received ≡ count_some p.fragments

-- An entry that waits in the map is not complete.
pub record IsPending (p : PartialMessage) : Type 0 where
  pub sound : IsCounted p
  pub open sound use *
  pub incomplete : p.received < p.seq_total

pub record IsValid (r : Reassembler) : Type 0 where
  pub unique : HasUniqueKeys r.in_flight
  pub pending : AllValues IsPending r.in_flight

pub count_some-le : (fs : List (Option Bytes)) → count_some fs ≤ length fs
unfolding count_some
count_some-le [] = omega arith
count_some-le (none ∷ fs) = omega (arith, count_some-le fs)
count_some-le (some f ∷ fs) = omega (arith, count_some-le fs)

pub count_some-replicate : (n : ℕ) → count_some (replicate n none) ≡ 0
unfolding count_some replicate
count_some-replicate zero = refl
count_some-replicate (suc n) = count_some-replicate n

-- Filling an empty slot counts one more.
pub count_some-set :
    (fs : List (Option Bytes)) (i : ℕ) (v : Bytes)
    → get_elem? fs i ≡ some none
    → count_some (set fs i (some v)) ≡ count_some fs + 1
unfolding count_some set get_elem?
count_some-set [] i v h = cc
count_some-set (none ∷ fs) zero v h = omega arith
count_some-set (some f ∷ fs) zero v h = cc
count_some-set (none ∷ fs) (suc i) v h = count_some-set fs i v h
count_some-set (some f ∷ fs) (suc i) v h = omega (arith, count_some-set fs i v h)

pub get_elem?_in_range {ℓ} :
    {A : Type ℓ} (xs : List A) (i : ℕ) → i < length xs → (a : A) × (get_elem? xs i ≡ some a)
unfolding get_elem?
get_elem?_in_range [] i h = elim h [ ]
get_elem?_in_range (x ∷ xs) zero h = (x, refl)
get_elem?_in_range (x ∷ xs) (suc i) h = get_elem?_in_range xs i (omega arith)

-- When every slot is filled, the fragments can be joined.
pub join_fragments_full :
    (fs : List (Option Bytes))
    → count_some fs ≡ length fs
    → (message : Bytes) × (join_fragments fs ≡ some message)
unfolding count_some join_fragments
join_fragments_full [] h = ([], refl)
join_fragments_full (none ∷ fs) h = absurd (omega (arith, count_some-le fs))
join_fragments_full (some f ∷ fs) h =
    let (m, e) = join_fragments_full fs (omega arith) in (f ++ m, rw e)

pub new_partial-IsPending : (n : ℕ) → 0 < n → IsPending (new_partial n)
unfolding new_partial
new_partial-IsPending n h = record {
  sound = record { slots = length-replicate n none; counted = sym (count_some-replicate n) };
  incomplete = h;
}

-- The entry that a cell meets is pending, found or new.
pub entry_or_new-IsPending :
    (id : MessageId) (n : ℕ) (r : Reassembler)
    → 0 < n
    → IsValid r
    → IsPending (entry_or_new id n r.in_flight)
unfolding entry_or_new
entry_or_new-IsPending id n r h v = elim (Option-cases (lookup id r.in_flight)) [
  | inl e ↦ rw e (new_partial-IsPending n h)
  | inr (p, e) ↦ rw e (lookup-AllValues IsPending id r.in_flight v.pending e)
]

-- Storing a fragment inside the slots succeeds and keeps the count.
pub store_fragment-IsCounted :
    (i : ℕ) (payload : Bytes) (p : PartialMessage)
    → IsCounted p
    → i < p.seq_total
    → (q : PartialMessage) × (store_fragment i payload p ≡ some q)
      × IsCounted q
      × (q.seq_total ≡ p.seq_total)
unfolding store_fragment
store_fragment-IsCounted i payload p c h =
    let (slot, e) = get_elem?_in_range p.fragments i (omega arith) in
    elim (Option-cases slot) [
      | inl n ↦
          let e' = rw n at e in
          (
            record p { received = p.received + 1; fragments = set p.fragments i (some payload) },
            rw (e', store_fragment),
            record {
              slots = length-set p.fragments i (some payload) ∙ c.slots;
              counted = omega (arith, count_some-set p.fragments i payload e');
            },
            refl,
          )
      | inr (f, n) ↦ let e' = rw n at e in (p, rw (e', store_fragment), c, refl)
    ]

module _ (id : MessageId) (r : Reassembler) (p : PartialMessage) where
  pub finish_done :
      (message : Bytes)
      → p.received ≡ p.seq_total
      → join_fragments p.fragments ≡ some message
      → finish id r p
        ≡ some (ok (some message), record { in_flight = remove id (insert id p r.in_flight) })
  unfolding finish
  finish_done message e j = rw ((==_iff p.received p.seq_total).1 e, j)

  pub finish_more :
      p.received < p.seq_total
      → finish id r p ≡ some (ok none, record { in_flight = insert id p r.in_flight })
  unfolding finish
  finish_more h = ground arith

module _ (cell : Cell) (r : Reassembler) where
  abbrev pub entry : PartialMessage
  entry = entry_or_new cell.message_id cell.seq_total r.in_flight

  pub insert_cell-store :
      (q : PartialMessage)
      → entry.seq_total ≡ cell.seq_total
      → store_fragment cell.seq_index (real_payload cell) entry ≡ some q
      → insert_cell cell r ≡ finish cell.message_id r q
  unfolding insert_cell Option.bind
  insert_cell-store q e s = rw ((==_iff entry.seq_total cell.seq_total).1 e, s)

  -- A cell whose total differs from that of the entry it meets is refused; the entry, found or new,
  -- is in the map as it was.
  pub insert_cell_mismatch :
      entry.seq_total ≢ cell.seq_total
      → insert_cell cell r
        ≡ some (
          err VeilError.mismatched_message_id,
          record { in_flight = insert cell.message_id entry r.in_flight },
        )
  unfolding insert_cell
  insert_cell_mismatch h = ground arith

-- A run that ends without a panic in a valid reassembler and touches no entry but that of the id.
abbrev pub RunsTo : MessageId → Reassembler → Outcome → Type 0
RunsTo id r o =
    (out : VeilResult (Option Bytes)) × (r' : Reassembler) × (o ≡ some (out, r'))
    × IsValid r'
    × ((j : Bytes) → bytes_eq id j ≡ false → lookup j r'.in_flight ≡ lookup j r.in_flight)

module _ (id : MessageId) (r : Reassembler) (v : IsValid r) where
  pub insert-IsValid :
      (p : PartialMessage) → IsPending p → IsValid (record { in_flight = insert id p r.in_flight })
  insert-IsValid p g = record {
    unique = insert-HasUniqueKeys id p r.in_flight v.unique;
    pending = insert-AllValues IsPending id p r.in_flight g v.pending;
  }

  pub remove-IsValid :
      (p : PartialMessage) → IsValid (record { in_flight = remove id (insert id p r.in_flight) })
  remove-IsValid p = record {
    unique = remove-HasUniqueKeys id _ (insert-HasUniqueKeys id p r.in_flight v.unique);
    pending = remove-insert-AllValues IsPending id p r.in_flight v.pending;
  }

  insert_frame :
      (p : PartialMessage) (j : Bytes)
      → bytes_eq id j ≡ false
      → lookup j (insert id p r.in_flight) ≡ lookup j r.in_flight
  insert_frame p j e = rw (lookup-insert id j p r.in_flight, e)

  remove_frame :
      (p : PartialMessage) (j : Bytes)
      → bytes_eq id j ≡ false
      → lookup j (remove id (insert id p r.in_flight)) ≡ lookup j r.in_flight
  remove_frame p j e =
      rw
        (
          lookup-remove id j (insert id p r.in_flight)
              (insert-HasUniqueKeys id p r.in_flight v.unique),
          e,
        )
        (insert_frame p j e)

  finish-RunsTo_done :
      (p : PartialMessage)
      → p.received ≡ p.seq_total
      → (message : Bytes) × (join_fragments p.fragments ≡ some message)
      → RunsTo id r (finish id r p)
  finish-RunsTo_done p e (m, j) =
      (ok (some m), _, finish_done id r p m e j, remove-IsValid p, remove_frame p)

  -- An entry that is complete is joined and leaves the map; any other stays.
  finish-RunsTo : (p : PartialMessage) → IsCounted p → RunsTo id r (finish id r p)
  finish-RunsTo p c = elim (ℕ_discrete p.received p.seq_total) [
    | yes done ↦ finish-RunsTo_done p done (join_fragments_full p.fragments (omega arith))
    | no more ↦
        let less : p.received < p.seq_total = omega (arith, count_some-le p.fragments) in
        (
          ok none,
          _,
          finish_more id r p less,
          insert-IsValid p (record { sound = c; incomplete = less }),
          insert_frame p,
        )
  ]

module _ (cell : Cell) (r : Reassembler) (v : IsValid r) (h : cell.seq_index < cell.seq_total) where
  abbrev id : MessageId
  id = cell.message_id

  insert_cell-RunsTo_store :
      (e : (entry cell r).seq_total ≡ cell.seq_total)
      → (q : PartialMessage) × (store_fragment cell.seq_index (real_payload cell) (entry cell r)
          ≡ some q)
        × IsCounted q
        × (q.seq_total ≡ (entry cell r).seq_total)
      → RunsTo id r (insert_cell cell r)
  insert_cell-RunsTo_store e (q, s, c, _) =
      rw (insert_cell-store cell r q e s) (finish-RunsTo id r v q c)

  -- From a valid reassembler, a cell within its sequence never panics; the result is valid, and the
  -- entries of other messages are as before.
  pub insert_cell-RunsTo : RunsTo id r (insert_cell cell r)
  insert_cell-RunsTo =
      let g = entry_or_new-IsPending id cell.seq_total r (omega arith) v in
      elim (ℕ_discrete (entry cell r).seq_total cell.seq_total) [
        | yes e ↦ insert_cell-RunsTo_store e (
            store_fragment-IsCounted cell.seq_index (real_payload cell) (entry cell r) g.sound
              (omega arith))
        | no e ↦ (
          err VeilError.mismatched_message_id,
          _,
          insert_cell_mismatch cell r e,
          insert-IsValid id r v (entry cell r) g,
          insert_frame id r v (entry cell r),
        )
      ]

-- Evicting an id keeps the reassembler valid.
pub evict-IsValid : (id : MessageId) (r : Reassembler) → IsValid r → IsValid (evict id r)
unfolding evict
evict-IsValid id r v = record {
  unique = remove-HasUniqueKeys id r.in_flight v.unique;
  pending = remove-AllValues IsPending id r.in_flight v.pending;
}
