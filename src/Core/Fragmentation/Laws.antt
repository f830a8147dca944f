-- ===== src/Core/Fragmentation/Laws.antt =====
-- What `fragment_message` returns, on every branch.
use orf_veil.Prelude.{ℕ, suc, ◌+◌, ◌≤◌, ◌<◌, ◌≡◌, ◌⊎◌, le→ltb, refl, ap, ap₂, ◌∙◌, arith}
use orf_veil.Prelude.{List, [], ◌∷◌, ◌++◌, map, length, All}
use orf_veil.Prelude.Bytes.{Bytes, IsByte, as_u16}
use orf_veil.Prelude.Result.{ok, err}
use orf_veil.External.Random.{Rng, RngLaws}
use orf_veil.Core.Error.{VeilError}
use orf_veil.Core.Cell.{Cell, MessageId, payload_capacity, real_payload}
use orf_veil.Core.Cell.Valid.{
  IsValid, built_cell, new_data_ok, built_cell-IsValid, real_payload-built_cell,
}
use orf_veil.Core.Fragmentation.{
  max_message_size, chunks, div_ceil, fragment_loop, fragment_message,
}
use orf_veil.Core.Fragmentation.Chunks.{
  concat, concat-chunks, length-chunks, chunks_bound, chunks_bytes, div_ceil_bounds,
}

-- The cells carry one id and one total, and the indices from `i` on.
abbrev pub IsNumbered : MessageId → ℕ → ℕ → List Cell → Type 0
IsNumbered id total i [] = Unit {0}
IsNumbered id total i (c ∷ cells) =
    (c.message_id ≡ id)
    × (c.seq_total ≡ total)
    × (c.seq_index ≡ i)
    × IsNumbered id total (suc i) cells

-- The cells are a fragmentation of the message under the id.
pub record IsFragmentation (id : MessageId) (message : Bytes) (cells : List Cell) : Type 0 where
  pub numbered : IsNumbered id (length cells) 0 cells
  pub joined : concat (map real_payload cells) ≡ message
  pub count : length cells ≡ div_ceil (length message) payload_capacity
  pub valid : All IsValid cells
  pub nonempty : 0 < length cells

-- The cells of the loop when no guard of `new_data` fires.
number_cells : MessageId → ℕ → ℕ → List Bytes → List Cell
number_cells id total i [] = []
number_cells id total i (chunk ∷ rest) =
    built_cell id i total chunk ∷ number_cells id total (suc i) rest

module _ (id : MessageId) (total : ℕ) (small : total < 65536) where
  fragment_loop-number_cells :
      (i : ℕ) (pieces : List Bytes)
      → All (λ c. length c ≤ payload_capacity) pieces
      → i + length pieces ≤ total
      → fragment_loop id total i pieces ≡ ok (number_cells id total i pieces)
  unfolding fragment_loop number_cells
  fragment_loop-number_cells i [] h k = refl
  fragment_loop-number_cells i (c ∷ cs) h k =
      let e : as_u16 i ≡ i = omega arith in
      let e' : i + 1 ≡ suc i = omega arith in
      rw (
        e,
        e',
        new_data_ok id i total c h.0 (omega arith),
        fragment_loop-number_cells (suc i) cs h.1 (omega arith),
      )

  length-number_cells :
      (i : ℕ) (pieces : List Bytes) → length (number_cells id total i pieces) ≡ length pieces
  unfolding number_cells
  length-number_cells i [] = refl
  length-number_cells i (c ∷ cs) = ap suc (length-number_cells (suc i) cs)

  number_cells-IsNumbered :
      (i : ℕ) (pieces : List Bytes) → IsNumbered id total i (number_cells id total i pieces)
  unfolding number_cells
  number_cells-IsNumbered i [] = tt
  number_cells-IsNumbered i (c ∷ cs) = (refl, refl, refl, number_cells-IsNumbered (suc i) cs)

  concat-number_cells :
      (i : ℕ) (pieces : List Bytes)
      → All (λ c. length c ≤ payload_capacity) pieces
      → concat (map real_payload (number_cells id total i pieces)) ≡ concat pieces
  unfolding number_cells concat
  concat-number_cells i [] h = refl
  concat-number_cells i (c ∷ cs) h =
      ap₂ ◌++◌ (real_payload-built_cell id i total c h.0) (concat-number_cells (suc i) cs h.1)

  number_cells-IsValid :
      (i : ℕ) (pieces : List Bytes)
      → length id ≡ 16
      → All IsByte id
      → All (λ c. length c ≤ payload_capacity) pieces
      → All (All IsByte) pieces
      → i + length pieces ≤ total
      → All IsValid (number_cells id total i pieces)
  unfolding number_cells
  number_cells-IsValid i [] l b h g k = tt
  number_cells-IsValid i (c ∷ cs) l b h g k = (
    built_cell-IsValid id i total c
        (record { id_length = l; id_bytes = b; total_fits = small; bytes_fit = g.0 }) h.0
        (omega arith),
    number_cells-IsValid (suc i) cs l b h.1 g.1 (omega arith),
  )

module _ (r : Rng) (message : Bytes) (s : r.State) where
  abbrev pieces : List Bytes
  pieces = chunks payload_capacity message

  abbrev total : ℕ
  total = div_ceil (length message) payload_capacity

  -- A message of 1 to `max_message_size` bytes is cut, under the id that is drawn, into valid cells
  -- that are numbered from 0 under one total, and whose payloads joined are the message.
  pub fragment_message_ok :
      RngLaws r
      → All IsByte message
      → 0 < length message
      → length message ≤ max_message_size
      → (cells : List Cell) × (fragment_message r message s ≡ (ok cells, (r.fill_bytes 16 s).1))
        × IsFragmentation (r.fill_bytes 16 s).0 message cells
  unfolding fragment_message
  fragment_message_ok laws b h k =
      let id = (r.fill_bytes 16 s).0 in
      let bounds = div_ceil_bounds (length message) h k in
      let count = length-chunks message in
      let short = chunks_bound payload_capacity message in
      let cells = number_cells id total 0 pieces in
      let count' : length cells ≡ total =
        length-number_cells id total (bounds.1) 0 pieces ∙ count in
      let run : fragment_loop id total 0 pieces ≡ ok cells =
        fragment_loop-number_cells id total (bounds.1) 0 pieces short (omega arith) in
      let whole : as_u16 total ≡ total = omega arith in
      (
        cells,
        rw (le→ltb _ _ k, whole, run) (ground arith),
        record {
          numbered = rw count' (number_cells-IsNumbered id total (bounds.1) 0 pieces);
          joined =
              concat-number_cells id total (bounds.1) 0 pieces short
              ∙ concat-chunks payload_capacity (omega arith) message;
          count = count';
          valid =
              number_cells-IsValid id total (bounds.1) 0 pieces (laws.length-fill_bytes 16 s)
                (laws.fill_bytes-IsByte 16 s) short (chunks_bytes payload_capacity message b)
                (omega arith);
          nonempty = omega arith;
        },
      )

  -- An empty message and one beyond the maximum are refused before anything is drawn.
  pub fragment_message_err :
      (length message ≡ 0) ⊎ (max_message_size < length message)
      → fragment_message r message s
        ≡ (err (VeilError.message_too_large (length message) max_message_size), s)
  unfolding fragment_message
  fragment_message_err h = ground arith
