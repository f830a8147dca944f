-- ===== src/Core/Reassembly/Spec/Views.antt =====
-- The abstract view of a reassembler, and how its parts change.
use orf_veil.Prelude.{
  ℕ, zero, suc, ◌+◌, ◌<◌, ◌≡◌, refl, ap, sym, ◌∙◌, arith, inl, inr, List, [], ◌∷◌, Option, none,
  some, Option-cases, Bool-cases, ◌==◌, ==_iff, if◌then◌else◌, length, get_elem?, set, replicate,
}
use orf_veil.Prelude.Bytes.{Bytes, bytes_eq}
use orf_veil.Prelude.Map.{Map, lookup, insert, remove, lookup-insert, lookup-remove, HasUniqueKeys}
use orf_veil.Core.Cell.{MessageId}
use orf_veil.Core.Reassembly.{
  PartialMessage, Reassembler, new_partial, entry_or_new, store_fragment, join_fragments,
}
use orf_veil.Core.Reassembly.Invariant.{count_some}
use orf_veil.Core.Reassembly.Spec.{Pending, State, update, entry_of, fill, gather}
use mathlib.Core.Path.{fun_ext}
use mathlib.Core.Option

-- The fragment in a slot; `none` too where there is no slot.
unfoldable pub slot_at : List (Option Bytes) → ℕ → Option Bytes
slot_at [] i = none
slot_at (f ∷ fs) zero = f
slot_at (f ∷ fs) (suc i) = slot_at fs i

abbrev pub view_entry : PartialMessage → Pending
view_entry p = record { total = p.seq_total; slots = slot_at p.fragments }

abbrev pub view_map : Map PartialMessage → State
view_map m = λ id. Option.map view_entry (lookup id m)

abbrev pub view : Reassembler → State
view r = view_map r.in_flight

slot_at-replicate : (n i : ℕ) → slot_at (replicate n none) i ≡ none
unfolding slot_at replicate
slot_at-replicate zero i = refl
slot_at-replicate (suc n) zero = refl
slot_at-replicate (suc n) (suc i) = slot_at-replicate n i

slot_at-get_elem? :
    (fs : List (Option Bytes)) (i : ℕ) (f : Option Bytes)
    → get_elem? fs i ≡ some f
    → slot_at fs i ≡ f
unfolding slot_at get_elem?
slot_at-get_elem? [] i f h = cc
slot_at-get_elem? (x ∷ fs) zero f h = cc
slot_at-get_elem? (x ∷ fs) (suc i) f h = slot_at-get_elem? fs i f h

slot_at-set :
    (fs : List (Option Bytes)) (i j : ℕ) (f : Option Bytes)
    → i < length fs
    → slot_at (set fs i f) j ≡ (if j == i then f else slot_at fs j)
unfolding slot_at set
slot_at-set [] i j f h = elim h [ ]
slot_at-set (x ∷ fs) zero zero f h = ground arith
slot_at-set (x ∷ fs) zero (suc j) f h = ground arith
slot_at-set (x ∷ fs) (suc i) zero f h = ground arith
slot_at-set (x ∷ fs) (suc i) (suc j) f h = slot_at-set fs i j f (omega arith) ∙ ground arith

in_range :
    (fs : List (Option Bytes)) (i : ℕ) (f : Option Bytes) → get_elem? fs i ≡ some f → i < length fs
unfolding get_elem?
in_range [] i f h = cc
in_range (x ∷ fs) zero f h = omega arith
in_range (x ∷ fs) (suc i) f h = let k = in_range fs i f h in omega arith

-- A new entry is the new entry of the specification.
pub view-entry_or_new :
    (id : MessageId) (n : ℕ) (m : Map PartialMessage)
    → view_entry (entry_or_new id n m) ≡ entry_of id n (view_map m)
unfolding entry_or_new new_partial
view-entry_or_new id n m = elim (Option-cases (lookup id m)) [
  | inl e ↦ rw e (ap (λ s. record { total = n; slots = s }) (fun_ext λ i. slot_at-replicate n i))
  | inr (p, e) ↦ rw e refl
]

-- Filling a slot that is full changes nothing.
fill_kept :
    (i : ℕ) (payload : Bytes) (slots : ℕ → Option Bytes) (f : Bytes)
    → slots i ≡ some f
    → (j : ℕ) → slots j ≡ fill i payload slots j
fill_kept i payload slots f h j = elim (Bool-cases (j == i)) [
  | inl e ↦
      rw e (ap slots ((==_iff j i).0 e) ∙ h ∙ sym (ap (λ o. some (Option.get_or o payload)) h))
  | inr e ↦ rw e refl
]

-- Storing a fragment fills its slot.
pub view-store_fragment :
    (i : ℕ) (payload : Bytes) (p q : PartialMessage)
    → store_fragment i payload p ≡ some q
    → slot_at q.fragments ≡ fill i payload (slot_at p.fragments)
unfolding store_fragment
view-store_fragment i payload p q h = elim (Option-cases (get_elem? p.fragments i)) [
  | inl e ↦ let h' : none ≡ some q = rw (e, store_fragment) at h in cc
  | inr (none, e) ↦
      let h' : some
            (record p { received = p.received + 1; fragments = set p.fragments i (some payload) })
          ≡ some q =
        rw (e, store_fragment) at h in
      let at_i = slot_at-get_elem? p.fragments i none e in
      let e' : set p.fragments i (some payload) ≡ q.fragments = cc in
      fun_ext λ j.
        ap (λ fs. slot_at fs j) (sym e')
        ∙ slot_at-set p.fragments i j (some payload) (in_range p.fragments i none e)
        ∙ ap
            (λ (o : Option Bytes).
              if j == i then some (Option.get_or o payload) else slot_at p.fragments j)
            (sym at_i)
  | inr (some f, e) ↦
      let h' : some p ≡ some q = rw (e, store_fragment) at h in
      let at_i = slot_at-get_elem? p.fragments i (some f) e in
      let e' : p ≡ q = cc in
      fun_ext λ j.
        ap (λ x. slot_at x.fragments j) (sym e')
        ∙ fill_kept i payload (slot_at p.fragments) f at_i j
]

-- Joining the fragments is gathering the slots.
gather-slots :
    (fs : List (Option Bytes)) (k : ℕ) (slots : ℕ → Option Bytes)
    → ((i : ℕ) → slots (k + i) ≡ slot_at fs i)
    → gather k (length fs) slots ≡ join_fragments fs
unfolding gather join_fragments slot_at Option.bind
gather-slots [] k slots h = refl
gather-slots (none ∷ fs) k slots h =
    let e : slots k ≡ none = ap slots (omega arith) ∙ h 0 in rw e refl
gather-slots (some f ∷ fs) k slots h =
    let e : slots k ≡ some f = ap slots (omega arith) ∙ h 0 in
    let later : (i : ℕ) → slots (suc k + i) ≡ slot_at fs i =
      λ i. ap slots (omega arith) ∙ h (suc i) in
    rw (e, gather-slots fs (suc k) slots later) refl

pub gather-join_fragments :
    (fs : List (Option Bytes)) → gather 0 (length fs) (slot_at fs) ≡ join_fragments fs
gather-join_fragments fs = gather-slots fs 0 (slot_at fs) (λ i. ap (slot_at fs) (omega arith))

-- With a slot that is empty nothing is joined.
pub join_fragments_open :
    (fs : List (Option Bytes)) → count_some fs < length fs → join_fragments fs ≡ none
unfolding count_some join_fragments
join_fragments_open [] h = elim h [ ]
join_fragments_open (none ∷ fs) h = refl
join_fragments_open (some f ∷ fs) h = rw (join_fragments_open fs (omega arith)) refl

pub view-insert :
    (id : MessageId) (p : PartialMessage) (m : Map PartialMessage)
    → view_map (insert id p m) ≡ update id (some (view_entry p)) (view_map m)
view-insert id p m = fun_ext λ j. elim (Bool-cases (bytes_eq id j)) [
  | inl e ↦ rw (lookup-insert id j p m, e) refl
  | inr e ↦ rw (lookup-insert id j p m, e) refl
]

pub view-remove :
    (id : MessageId) (m : Map PartialMessage)
    → HasUniqueKeys m
    → view_map (remove id m) ≡ update id none (view_map m)
view-remove id m u = fun_ext λ j. elim (Bool-cases (bytes_eq id j)) [
  | inl e ↦ rw (lookup-remove id j m u, e) refl
  | inr e ↦ rw (lookup-remove id j m u, e) refl
]
