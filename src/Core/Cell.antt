-- ===== src/Core/Cell.antt =====
-- crates/veil-core/src/cell.rs: the fixed-size cell, its constructors and its wire format. An array
-- `[u8; N]` is a list of `N` bytes; the proofs stand in the modules below.
pub mod Valid
pub mod Wire
use orf_veil.Prelude.{ℕ, ◌-◌, Bool, List, [], ◌∷◌, ◌++◌, ◌||◌, ltb, leb, ◌==◌, if◌then◌else◌}
use orf_veil.Prelude.{length, take, drop, replicate}
use orf_veil.Prelude.Bytes.{Bytes, as_u16, byte_at, slice, u16_to_be, u16_from_be}
use orf_veil.Prelude.Result.{ok, err, ◌>>=◌}
use orf_veil.External.Random.{Rng}
use orf_veil.Core.Error.{VeilError, VeilResult}

abbrev pub cell_size : ℕ
cell_size = 512

abbrev pub header_size : ℕ
header_size = 24

abbrev pub payload_capacity : ℕ
payload_capacity = cell_size - header_size

abbrev pub protocol_version : ℕ
protocol_version = 1

pub data CellType : Type 0 where
  data_cell dummy_cell : CellType

-- `self.cell_type as u8`
unfoldable pub cell_type_byte : CellType → ℕ
cell_type_byte data_cell = 0
cell_type_byte dummy_cell = 1

-- `CellType::from_u8`
unfoldable pub cell_type_from_u8 : ℕ → VeilResult CellType
cell_type_from_u8 v =
    if v == 0
    then ok data_cell
    else if v == 1
    then ok dummy_cell
    else err (VeilError.invalid_cell_type v)

abbrev pub MessageId : Type 0
MessageId = Bytes

pub record Cell : Type 0 where
  pub version : ℕ
  pub cell_type : CellType
  pub message_id : MessageId
  pub seq_index : ℕ
  pub seq_total : ℕ
  pub payload_len : ℕ
  pub payload : Bytes

-- The guard on the sequence fields, which `new_data` and `from_bytes` share.
abbrev pub is_bad_sequence : ℕ → ℕ → Bool
is_bad_sequence seq_index seq_total = seq_total == 0 || leb seq_total seq_index

-- `Cell::new_data`
unfoldable pub new_data : MessageId → ℕ → ℕ → Bytes → VeilResult Cell
new_data message_id seq_index seq_total bytes =
    if ltb payload_capacity (length bytes)
    then err (VeilError.payload_too_large (length bytes) payload_capacity)
    else if is_bad_sequence seq_index seq_total
    then err (VeilError.invalid_sequence seq_index seq_total)
    else ok (record {
      version = protocol_version;
      cell_type = data_cell;
      message_id = message_id;
      seq_index = seq_index;
      seq_total = seq_total;
      payload_len = as_u16 (length bytes);
      payload = bytes ++ replicate (payload_capacity - length bytes) 0;
    })

-- `Cell::new_dummy`: the message id is drawn first, then the payload.
unfoldable pub new_dummy : (r : Rng) → r.State → Cell × r.State
new_dummy r s =
    let (message_id, s') = r.fill_bytes 16 s in
    let (payload, s'') = r.fill_bytes payload_capacity s' in
    (
      record {
        version = protocol_version;
        cell_type = dummy_cell;
        message_id = message_id;
        seq_index = 0;
        seq_total = 1;
        payload_len = as_u16 payload_capacity;
        payload = payload;
      },
      s'',
    )

-- `Cell::payload`: the real payload, without the padding.
unfoldable pub real_payload : Cell → Bytes
real_payload c = take c.payload_len c.payload

-- `Cell::to_bytes`: the segments of the buffer, which cover it from left to right.
unfoldable pub to_bytes : Cell → Bytes
unfolding cell_type_byte
to_bytes c =
    c.version
    ∷ cell_type_byte c.cell_type
    ∷ (c.message_id
        ++ (u16_to_be c.seq_index
            ++ (u16_to_be c.seq_total ++ (u16_to_be c.payload_len ++ c.payload))))

-- The checks of `Cell::from_bytes` behind the version and the type, on the fields that it reads.
unfoldable pub check_fields : ℕ → CellType → MessageId → ℕ → ℕ → ℕ → Bytes → VeilResult Cell
check_fields version cell_type message_id seq_index seq_total payload_len payload =
    if ltb payload_capacity payload_len
    then err (VeilError.payload_too_large payload_len payload_capacity)
    else if is_bad_sequence seq_index seq_total
    then err (VeilError.invalid_sequence seq_index seq_total)
    else ok (record {
      version = version;
      cell_type = cell_type;
      message_id = message_id;
      seq_index = seq_index;
      seq_total = seq_total;
      payload_len = payload_len;
      payload = payload;
    })

-- `Cell::from_bytes`, on a buffer of `cell_size` bytes.
unfoldable pub from_bytes : Bytes → VeilResult Cell
unfolding cell_type_from_u8 check_fields
from_bytes buf =
    if byte_at buf 0 == protocol_version
    then (do
      cell_type ← cell_type_from_u8 (byte_at buf 1)
      check_fields (byte_at buf 0) cell_type (slice 2 18 buf)
          (u16_from_be (byte_at buf 18) (byte_at buf 19))
          (u16_from_be (byte_at buf 20) (byte_at buf 21))
          (u16_from_be (byte_at buf 22) (byte_at buf 23)) (drop header_size buf))
    else err (VeilError.unsupported_version (byte_at buf 0))
