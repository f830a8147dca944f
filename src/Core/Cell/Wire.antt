-- ===== src/Core/Cell/Wire.antt =====
-- The wire format of cells: its size, and that parsing and serialising are inverse.
use orf_veil.Prelude.{ℕ, suc, ◌+◌, ◌≤◌, ◌<◌, ◌∷◌, ◌++◌, ◌≡◌, refl, ap, sym, ◌∙◌, arith}
use orf_veil.Prelude.{◌/◌, ◌%◌, ◌==◌, if◌then◌else◌}
use orf_veil.Prelude.Bytes.{u16_from_be}
use orf_veil.Prelude.{
  length, All, get_or, drop, length-append, get_or-append, take-append_length, drop-append_length,
  drop-drop, drop-get_or, take-append-drop, All-append, All-get_or, All-take, All-drop, length-take,
  length-drop,
}
use orf_veil.Prelude.Bytes.{Bytes, IsByte, byte_at, slice, u16_to_be, u16_from_be-to_be}
use orf_veil.Prelude.Result.{ok, err, ◌>>=◌}
use orf_veil.Core.Cell.{
  Cell, CellType, data_cell, dummy_cell, cell_size, to_bytes, from_bytes, check_fields,
  cell_type_byte, cell_type_from_u8,
}
use orf_veil.Core.Error.{VeilError}
use orf_veil.Core.Cell.Valid.{IsValid}

-- A valid cell takes exactly `cell_size` bytes.
pub length-to_bytes : (c : Cell) → IsValid c → length (to_bytes c) ≡ cell_size
unfolding to_bytes
length-to_bytes c v = omega (
  arith,
  length-append c.message_id
      (u16_to_be c.seq_index ++ (u16_to_be c.seq_total ++ (u16_to_be c.payload_len ++ c.payload))),
)

type-IsByte : (t : CellType) → IsByte (cell_type_byte t)
unfolding cell_type_byte
type-IsByte data_cell = omega arith
type-IsByte dummy_cell = omega arith

-- It consists of bytes.
pub to_bytes-IsByte : (c : Cell) → IsValid c → All IsByte (to_bytes c)
unfolding to_bytes cell_type_byte
to_bytes-IsByte c v = (
  omega (arith, v.current),
  (
    type-IsByte c.cell_type,
    All-append IsByte c.message_id _ v.id_bytes (
      omega arith,
      (omega arith, (omega arith, (omega arith, (omega arith, (omega arith, v.payload_bytes))))),
    ),
  ),
)

-- The serialised header and payload behind an id, read at the offsets of `from_bytes`.
module _ (id p : Bytes) (v t a b c d e f : ℕ) (h : length id ≡ 16) where
  abbrev wire : Bytes
  wire = v ∷ t ∷ (id ++ (a ∷ b ∷ c ∷ d ∷ e ∷ f ∷ p))

  abbrev field_tail : Bytes
  field_tail = a ∷ b ∷ c ∷ d ∷ e ∷ f ∷ p

  byte_at-wire : (k : ℕ) → byte_at wire (18 + k) ≡ byte_at field_tail k
  unfolding get_or
  byte_at-wire k =
      let e : 18 + k ≡ suc (suc (16 + k)) = omega arith in
      rw e (get_or-append 16 k id field_tail 0 h)

  slice-wire : slice 2 18 wire ≡ id
  unfolding drop
  slice-wire = take-append_length 16 id field_tail h

  drop-wire : drop 24 wire ≡ p
  unfolding drop
  drop-wire =
      sym (drop-drop 16 6 (id ++ field_tail)) ∙ ap (drop 6) (drop-append_length 16 id field_tail h)

  from_bytes-wire : from_bytes wire ≡ (
      if v == 1
      then (do
        cell_type ← cell_type_from_u8 t
        check_fields v cell_type id (u16_from_be a b) (u16_from_be c d) (u16_from_be e f) p)
      else err (VeilError.unsupported_version v))
  unfolding from_bytes get_or
  from_bytes-wire = rw (
    slice-wire,
    drop-wire,
    get_or-append 16 0 id field_tail 0 h,
    get_or-append 16 1 id field_tail 0 h,
    get_or-append 16 2 id field_tail 0 h,
    get_or-append 16 3 id field_tail 0 h,
    get_or-append 16 4 id field_tail 0 h,
    get_or-append 16 5 id field_tail 0 h,
  )

-- Parsing a serialised valid cell gives the cell back.
pub from_bytes-to_bytes : (c : Cell) → IsValid c → from_bytes (to_bytes c) ≡ ok c
unfolding to_bytes cell_type_byte cell_type_from_u8 check_fields
from_bytes-to_bytes c v = rw (from_bytes-wire c.message_id c.payload _ _ _ _ _ _ _ _ v.id_length) (
    ground (
      arith,
      u16_from_be-to_be c.seq_index,
      u16_from_be-to_be c.seq_total,
      u16_from_be-to_be c.payload_len,
    ))

module _ (buf : Bytes) (size : length buf ≡ cell_size) where
  byte-drop : (i : ℕ) → i < cell_size → drop i buf ≡ byte_at buf i ∷ drop (suc i) buf
  byte-drop i h = drop-get_or i buf 0 (omega arith)

  drop_none : drop 0 buf ≡ buf
  unfolding drop
  drop_none = refl

  -- A buffer of the size of a cell, cut at the offsets of the header.
  buffer_parts :
      buf
      ≡ byte_at buf 0
        ∷ byte_at buf 1
        ∷ (slice 2 18 buf
            ++ (byte_at buf 18
                ∷ byte_at buf 19
                ∷ byte_at buf 20
                ∷ byte_at buf 21
                ∷ byte_at buf 22
                ∷ byte_at buf 23
                ∷ drop 24 buf))
  buffer_parts = cc (
    drop_none,
    byte-drop 0 (omega arith),
    byte-drop 1 (omega arith),
    take-append-drop 16 (drop 2 buf),
    drop-drop 2 16 buf,
    byte-drop 18 (omega arith),
    byte-drop 19 (omega arith),
    byte-drop 20 (omega arith),
    byte-drop 21 (omega arith),
    byte-drop 22 (omega arith),
    byte-drop 23 (omega arith),
  )

module _ (buf : Bytes) (c : Cell) where
  -- What an accepted buffer says of the parsed cell.
  from_bytes-eq-ok :
      from_bytes buf ≡ ok c
      → (byte_at buf 0 ≡ 1)
        × (byte_at buf 1 ≡ cell_type_byte c.cell_type)
        × (c.version ≡ 1)
        × (c.message_id ≡ slice 2 18 buf)
        × (c.seq_index ≡ u16_from_be (byte_at buf 18) (byte_at buf 19))
        × (c.seq_total ≡ u16_from_be (byte_at buf 20) (byte_at buf 21))
        × (c.payload_len ≡ u16_from_be (byte_at buf 22) (byte_at buf 23))
        × (c.payload ≡ drop 24 buf)
        × (c.payload_len ≤ 488)
        × (c.seq_index < c.seq_total)
  unfolding from_bytes cell_type_byte
  from_bytes-eq-ok h = ground arith

hi_byte : (a b : ℕ) → IsByte a → IsByte b → u16_from_be a b / 256 % 256 ≡ a
hi_byte a b ha hb = omega arith

lo_byte : (a b : ℕ) → IsByte b → u16_from_be a b % 256 ≡ b
lo_byte a b hb = omega arith

module _ (buf : Bytes) (c : Cell) (size : length buf ≡ cell_size) (bytes : All IsByte buf) where
  byte_at-IsByte : (i : ℕ) → IsByte (byte_at buf i)
  byte_at-IsByte i = All-get_or IsByte buf i 0 (omega arith) bytes

  -- A cell that is parsed from `cell_size` bytes is valid.
  pub from_bytes-IsValid : from_bytes buf ≡ ok c → IsValid c
  from_bytes-IsValid parsed =
      let e = from_bytes-eq-ok buf c parsed in
      record {
        current = e.2;
        id_length = ap length e.3 ∙ omega (arith, length-take 16 (drop 2 buf), length-drop 2 buf);
        id_bytes = rw e.3 (All-take IsByte 16 _ (All-drop IsByte 2 buf bytes));
        in_sequence = e.9;
        total_fits = omega (arith, e.5, byte_at-IsByte 20, byte_at-IsByte 21);
        within = e.8;
        payload_length = ap length e.7 ∙ omega (arith, length-drop 24 buf);
        payload_bytes = rw e.7 (All-drop IsByte 24 buf bytes);
      }

  -- Serialising a cell that is parsed from `cell_size` bytes gives those bytes back.
  pub to_bytes-from_bytes : from_bytes buf ≡ ok c → to_bytes c ≡ buf
  unfolding to_bytes
  to_bytes-from_bytes parsed =
      let e = from_bytes-eq-ok buf c parsed in
      cc (
        buffer_parts buf size,
        e.0,
        e.1,
        e.2,
        e.3,
        e.4,
        e.5,
        e.6,
        e.7,
        hi_byte (byte_at buf 18) (byte_at buf 19) (byte_at-IsByte 18) (byte_at-IsByte 19),
        lo_byte (byte_at buf 18) (byte_at buf 19) (byte_at-IsByte 19),
        hi_byte (byte_at buf 20) (byte_at buf 21) (byte_at-IsByte 20) (byte_at-IsByte 21),
        lo_byte (byte_at buf 20) (byte_at buf 21) (byte_at-IsByte 21),
        hi_byte (byte_at buf 22) (byte_at buf 23) (byte_at-IsByte 22) (byte_at-IsByte 23),
        lo_byte (byte_at buf 22) (byte_at buf 23) (byte_at-IsByte 23),
      )
