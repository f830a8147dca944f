-- ===== src/Core/Cell/Valid.antt =====
-- The invariant of cells, and that every constructor establishes it.
use orf_veil.Prelude.{ℕ, ◌-◌, ◌≤◌, ◌<◌, ◌++◌, ◌≡◌, refl, arith}
use orf_veil.Prelude.{length, All, replicate, length-append, length-replicate}
use orf_veil.Prelude.{All-append, All-replicate, take-append_length}
use orf_veil.Prelude.Bytes.{Bytes, IsByte, as_u16}
use orf_veil.Prelude.Result.{ok}
use orf_veil.External.Random.{Rng, RngLaws}
use orf_veil.Core.Cell.{Cell, MessageId, payload_capacity, protocol_version, data_cell}
use orf_veil.Core.Cell.{new_data, new_dummy, real_payload}

-- The ranges of the fields' types, and what `Cell::from_bytes` accepts.
pub record IsValid (c : Cell) : Type 0 where
  pub current : c.version ≡ protocol_version
  pub id_length : length c.message_id ≡ 16
  pub id_bytes : All IsByte c.message_id
  pub in_sequence : c.seq_index < c.seq_total
  pub total_fits : c.seq_total < 65536
  pub within : c.payload_len ≤ payload_capacity
  pub payload_length : length c.payload ≡ payload_capacity
  pub payload_bytes : All IsByte c.payload

-- What the caller of `new_data` hands over, by the types of the parameters.
pub record FitsTypes (id : MessageId) (total : ℕ) (bytes : Bytes) : Type 0 where
  pub id_length : length id ≡ 16
  pub id_bytes : All IsByte id
  pub total_fits : total < 65536
  pub bytes_fit : All IsByte bytes

padded_length :
    (bytes : Bytes)
    → length bytes ≤ payload_capacity
    → length (bytes ++ replicate (payload_capacity - length bytes) 0) ≡ payload_capacity
padded_length bytes h = omega (
  arith,
  length-append bytes (replicate (payload_capacity - length bytes) 0),
  length-replicate {A = ℕ} (payload_capacity - length bytes) 0,
)

padded_bytes : (bytes : Bytes) (n : ℕ) → All IsByte bytes → All IsByte (bytes ++ replicate n 0)
padded_bytes bytes n h =
    All-append IsByte bytes (replicate n 0) h (All-replicate IsByte n 0 (omega arith))

module _ (id : MessageId) (index total : ℕ) (bytes : Bytes) where
  -- The cell that `new_data` returns when both guards pass.
  abbrev pub built_cell : Cell
  built_cell = record {
    version = protocol_version;
    cell_type = data_cell;
    message_id = id;
    seq_index = index;
    seq_total = total;
    payload_len = as_u16 (length bytes);
    payload = bytes ++ replicate (payload_capacity - length bytes) 0;
  }

  -- `new_data` succeeds exactly within the capacity and the sequence.
  pub new_data_ok :
      length bytes ≤ payload_capacity
      → index < total
      → new_data id index total bytes ≡ ok built_cell
  unfolding new_data
  new_data_ok h k = ground arith

  pub new_data-eq-ok :
      (c : Cell)
      → new_data id index total bytes ≡ ok c
      → (length bytes ≤ payload_capacity) × (index < total) × (c ≡ built_cell)
  unfolding new_data
  new_data-eq-ok c h = ground arith

  pub built_cell-IsValid :
      FitsTypes id total bytes
      → length bytes ≤ payload_capacity
      → index < total
      → IsValid built_cell
  built_cell-IsValid f h k = record {
    current = refl;
    id_length = f.id_length;
    id_bytes = f.id_bytes;
    in_sequence = k;
    total_fits = f.total_fits;
    within = omega arith;
    payload_length = padded_length bytes h;
    payload_bytes = padded_bytes bytes _ f.bytes_fit;
  }

  pub real_payload-built_cell : length bytes ≤ payload_capacity → real_payload built_cell ≡ bytes
  unfolding real_payload
  real_payload-built_cell h = take-append_length _ bytes _ (omega arith)

  -- Every cell that `new_data` accepts is valid, when the arguments are within their types.
  pub new_data-IsValid :
      (c : Cell) → FitsTypes id total bytes → new_data id index total bytes ≡ ok c → IsValid c
  new_data-IsValid c f h =
      let (fits, k, e) = new_data-eq-ok c h in rw e (built_cell-IsValid f fits k)

module _ (r : Rng) (laws : RngLaws r) where
  -- A dummy cell is valid too, whatever was drawn.
  pub new_dummy-IsValid : (s : r.State) → IsValid (new_dummy r s).0
  unfolding new_dummy
  new_dummy-IsValid s = record {
    current = refl;
    id_length = laws.length-fill_bytes 16 s;
    id_bytes = laws.fill_bytes-IsByte 16 s;
    in_sequence = omega arith;
    total_fits = omega arith;
    within = omega arith;
    payload_length = laws.length-fill_bytes _ _;
    payload_bytes = laws.fill_bytes-IsByte _ _;
  }
