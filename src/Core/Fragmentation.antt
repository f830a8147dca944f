-- ===== src/Core/Fragmentation.antt =====
-- crates/veil-core/src/fragmentation.rs: a message is cut into numbered cells.
pub mod Chunks
pub mod Laws
use orf_veil.Prelude.{
  ℕ, zero, suc, ◌+◌, ◌*◌, ◌/◌, ◌%◌, List, [], ◌∷◌, ltb, ◌==◌, if◌then◌else◌, length,
}
use orf_veil.Prelude.{take, drop}
use orf_veil.Prelude.Bytes.{Bytes, as_u16}
use orf_veil.Prelude.Result.{ok, err, ◌>>=◌}
use orf_veil.External.Random.{Rng}
use orf_veil.Core.Error.{VeilError, VeilResult}
use orf_veil.Core.Cell.{Cell, MessageId, payload_capacity, new_data}

abbrev pub max_message_size : ℕ
max_message_size = payload_capacity * 65535

-- `slice::chunks` of the standard library. Each round takes at least one byte off, so as many
-- rounds as there are bytes are enough (`concat-chunks`).
chunks_loop : ℕ → ℕ → Bytes → List Bytes
chunks_loop zero size bytes = []
chunks_loop (suc fuel) size [] = []
chunks_loop (suc fuel) size (b ∷ bytes) =
    take size (b ∷ bytes) ∷ chunks_loop fuel size (drop size (b ∷ bytes))

unfoldable pub chunks : ℕ → Bytes → List Bytes
unfolding chunks_loop
chunks size bytes = chunks_loop (length bytes) size bytes

-- `usize::div_ceil`
unfoldable pub div_ceil : ℕ → ℕ → ℕ
div_ceil n d = if n % d == 0 then n / d else n / d + 1

-- The loop over `chunks(..).enumerate()`; `i` is the counter.
unfoldable pub fragment_loop : MessageId → ℕ → ℕ → List Bytes → VeilResult (List Cell)
fragment_loop message_id seq_total i [] = ok []
fragment_loop message_id seq_total i (chunk ∷ rest) = do
  cell ← new_data message_id (as_u16 i) seq_total chunk
  cells ← fragment_loop message_id seq_total (i + 1) rest
  ok (cell ∷ cells)

unfoldable pub fragment_message : (r : Rng) → Bytes → r.State → VeilResult (List Cell) × r.State
fragment_message r message s =
    if length message == 0
    then (err (VeilError.message_too_large 0 max_message_size), s)
    else if ltb max_message_size (length message)
    then (err (VeilError.message_too_large (length message) max_message_size), s)
    else let (message_id, s') = r.fill_bytes 16 s in
      let total_cells = div_ceil (length message) payload_capacity in
      (fragment_loop message_id (as_u16 total_cells) 0 (chunks payload_capacity message), s')
