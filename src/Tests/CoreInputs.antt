-- ===== src/Tests/CoreInputs.antt =====
-- The theorems on cells, fragmentation, reassembly and encryption at concrete inputs.
use orf_veil.Prelude.{
  ◌≡◌, refl, arith, List, [], ◌∷◌, ◌++◌, Bool, some, map, length, length-append, length-replicate,
  All, All-append, All-replicate, replicate, take, drop,
}
use orf_veil.Prelude.Bytes.{Bytes, IsByte, bytes_eq}
use orf_veil.Prelude.Map.{lookup}
use orf_veil.Prelude.Result.{ok}
use orf_veil.Core.Cell.{Cell, MessageId, to_bytes, from_bytes, real_payload}
use orf_veil.Core.Cell.Valid
use orf_veil.Core.Cell.Valid.{
  FitsTypes, built_cell, built_cell-IsValid, new_data_ok, new_data-IsValid, new_data-eq-ok,
  new_dummy-IsValid, real_payload-built_cell,
}
use orf_veil.Core.Cell.Wire.{
  length-to_bytes, to_bytes-IsByte, from_bytes-to_bytes, to_bytes-from_bytes, from_bytes-IsValid,
}
use orf_veil.Core.Fragmentation.{fragment_message, div_ceil}
use orf_veil.Core.Fragmentation.Chunks.{concat}
use orf_veil.Core.Fragmentation.Laws.{IsFragmentation, fragment_message_ok}
use orf_veil.Core.Reassembly.{Reassembler, new, insert_cell, entry_or_new, new_partial}
use orf_veil.Core.Reassembly.Invariant
use orf_veil.Core.Reassembly.Invariant.{
  RunsTo, insert_cell-RunsTo, insert_cell_mismatch, evict-IsValid, new_partial-IsPending,
  insert-IsValid,
}
use orf_veil.Core.Reassembly.Complete.{own}
use orf_veil.Core.Reassembly.Shuffled.{Finishes}
use orf_veil.Core.Reassembly.Spec.{Op, insert_op, evict_op}
use orf_veil.Core.Reassembly.Spec.Refines.{Refines, run_ops-Refines}
use orf_veil.Core.Reassembly.RoundTrip.{reassemble-fragments}
use orf_veil.Core.Crypto.Keys
use orf_veil.Core.Crypto.Keys.{diffie_hellman_agree, generate-IsPair}
use orf_veil.Core.Crypto.Encryption.{
  encrypt_cell, decrypt_cell, encrypted_cell_size, decrypt_cell-encrypt_cell, decrypt_cell-eq-ok,
}
use orf_veil.Tests.World.{rng, rng_laws, crypto, crypto_laws}
use mathlib.Core.List.{Permᴰ}

abbrev id_a : MessageId
id_a = replicate 16 1

abbrev id_b : MessageId
id_b = replicate 16 2

abbrev full : Bytes
full = replicate 488 5

abbrev message : Bytes
message = full ++ (9 ∷ [])

-- The two cells of the message, and one of another message that has three.
abbrev first_cell : Cell
first_cell = built_cell id_a 0 2 full

abbrev last_cell : Cell
last_cell = built_cell id_a 1 2 (9 ∷ [])

abbrev other_cell : Cell
other_cell = built_cell id_b 2 3 (7 ∷ [])

length-full : length full ≡ 488
length-full = length-replicate 488 5

full-FitsTypes : FitsTypes id_a 2 full
full-FitsTypes = record {
  id_length = length-replicate 16 1;
  id_bytes = All-replicate IsByte 16 1 (omega arith);
  total_fits = omega arith;
  bytes_fit = All-replicate IsByte 488 5 (omega arith);
}

last-FitsTypes : FitsTypes id_a 2 (9 ∷ [])
last-FitsTypes = record {
  id_length = length-replicate 16 1;
  id_bytes = All-replicate IsByte 16 1 (omega arith);
  total_fits = omega arith;
  bytes_fit = (omega arith, tt);
}

first_cell-IsValid : Valid.IsValid first_cell
first_cell-IsValid =
    built_cell-IsValid id_a 0 2 full full-FitsTypes (omega (arith, length-full)) (omega arith)

last_cell-IsValid : Valid.IsValid last_cell
last_cell-IsValid = built_cell-IsValid id_a 1 2 (9 ∷ []) last-FitsTypes (omega arith) (omega arith)

pieces_joined : concat (map real_payload (first_cell ∷ last_cell ∷ [])) ≡ message
unfolding concat
pieces_joined =
    rw
      (
        real_payload-built_cell id_a 0 2 full (omega (arith, length-full)),
        real_payload-built_cell id_a 1 2 (9 ∷ []) (omega arith),
      )
      refl

message_count : 2 ≡ div_ceil (length message) 488
unfolding div_ceil
message_count =
    let n : length message ≡ 489 = omega (arith, length-append full (9 ∷ []), length-full) in
    rw n refl

message-IsFragmentation : IsFragmentation id_a message (first_cell ∷ last_cell ∷ [])
message-IsFragmentation = record {
  numbered = (refl, refl, refl, (refl, refl, refl, tt));
  joined = pieces_joined;
  count = message_count;
  valid = (first_cell-IsValid, (last_cell-IsValid, tt));
  nonempty = omega arith;
}

new-IsValid : Invariant.IsValid new
new-IsValid = record { unique = tt; pending = tt }

abbrev arrived : List Cell
arrived = last_cell ∷ other_cell ∷ first_cell ∷ []

own_swapped : Permᴰ (own id_a arrived) (first_cell ∷ last_cell ∷ [])
unfolding own bytes_eq replicate
own_swapped = Permᴰ.swap refl refl

-- The cells arrive in the wrong order, with one of another message between them.
reassemble-fragments_example : Finishes id_a arrived new (message ∷ [])
unfolding lookup
reassemble-fragments_example =
    reassemble-fragments id_a message (first_cell ∷ last_cell ∷ []) message-IsFragmentation arrived
      new new-IsValid refl (omega arith, (omega arith, (omega arith, tt))) own_swapped

fragment_message_ok_example :
    (cells : List Cell) × (fragment_message rng message 3 ≡ (ok cells, 4))
    × IsFragmentation (replicate 16 3) message cells
fragment_message_ok_example =
    fragment_message_ok rng message 3 rng_laws
      (All-append IsByte full (9 ∷ []) full-FitsTypes.bytes_fit (omega arith, tt))
      (omega (arith, length-append full (9 ∷ [])))
      (omega (arith, length-append full (9 ∷ []), length-full))

from_bytes-to_bytes_example : from_bytes (to_bytes first_cell) ≡ ok first_cell
from_bytes-to_bytes_example = from_bytes-to_bytes first_cell first_cell-IsValid

length-to_bytes_example : length (to_bytes last_cell) ≡ 512
length-to_bytes_example = length-to_bytes last_cell last_cell-IsValid

to_bytes-from_bytes_example : to_bytes last_cell ≡ to_bytes last_cell
to_bytes-from_bytes_example =
    to_bytes-from_bytes (to_bytes last_cell) last_cell (length-to_bytes last_cell last_cell-IsValid)
      (to_bytes-IsByte last_cell last_cell-IsValid)
      (from_bytes-to_bytes last_cell last_cell-IsValid)

from_bytes-IsValid_example : Valid.IsValid last_cell
from_bytes-IsValid_example =
    from_bytes-IsValid (to_bytes last_cell) last_cell (length-to_bytes last_cell last_cell-IsValid)
      (to_bytes-IsByte last_cell last_cell-IsValid)
      (from_bytes-to_bytes last_cell last_cell-IsValid)

-- A reassembler that waits for both cells of the message.
abbrev waiting : Reassembler
waiting = record { in_flight = (id_a, new_partial 2) ∷ [] }

waiting-IsValid : Invariant.IsValid waiting
waiting-IsValid = record {
  unique = (tt, tt);
  pending = (new_partial-IsPending 2 (omega arith), tt);
}

insert_cell-RunsTo_example : RunsTo id_a waiting (insert_cell last_cell waiting)
insert_cell-RunsTo_example = insert_cell-RunsTo last_cell waiting waiting-IsValid (omega arith)

-- The cell says that the message has three cells, the entry has two slots.
abbrev odd_cell : Cell
odd_cell = built_cell id_a 1 3 (9 ∷ [])

odd_total : (Invariant.entry odd_cell waiting).seq_total ≡ 2
unfolding entry_or_new new_partial lookup bytes_eq replicate
odd_total = refl

-- A fragment twice, one with another total, the removal of the entry, and the first fragment again.
abbrev ops : List Op
ops =
    insert_op last_cell
    ∷ insert_op last_cell
    ∷ insert_op odd_cell
    ∷ evict_op id_a
    ∷ insert_op first_cell
    ∷ []

run_ops-Refines_example : Refines ops waiting
run_ops-Refines_example =
    run_ops-Refines ops waiting waiting-IsValid
      (omega arith, (omega arith, (omega arith, (tt, (omega arith, tt)))))

abbrev session_key : Bytes
session_key = replicate 32 4

decrypt_cell-encrypt_cell_example :
    (sealed : Bytes) × ((encrypt_cell rng crypto session_key last_cell 6).0 ≡ some (ok sealed))
    × (length sealed ≡ encrypted_cell_size)
    × All IsByte sealed
    × (decrypt_cell rng crypto session_key sealed ≡ some (ok last_cell))
decrypt_cell-encrypt_cell_example =
    decrypt_cell-encrypt_cell rng crypto rng_laws crypto_laws session_key last_cell 6
      last_cell-IsValid

abbrev alice : Keys.KeyPair rng crypto
alice = record { secret = Bool.true; public = Bool.true }

abbrev bob : Keys.KeyPair rng crypto
bob = record { secret = Bool.false; public = Bool.false }

abbrev sealed_cell : Bytes
sealed_cell = decrypt_cell-encrypt_cell_example.0

decrypt_cell-eq-ok_example :
    Valid.IsValid last_cell
    × (crypto.encrypt session_key (take 12 sealed_cell) (to_bytes last_cell)
        ≡ some (drop 12 sealed_cell))
decrypt_cell-eq-ok_example =
    decrypt_cell-eq-ok rng crypto rng_laws crypto_laws session_key sealed_cell last_cell
      decrypt_cell-encrypt_cell_example.2 decrypt_cell-encrypt_cell_example.4
