-- ===== src/Core/Fragmentation/Chunks.antt =====
-- `chunks` cuts a byte string into pieces of at most the given size, and loses nothing.
use orf_veil.Prelude.{ℕ, zero, suc, ◌+◌, ◌/◌, ◌≤◌, ◌<◌, ◌≡◌, refl, ap, sym, ◌∙◌, arith}
use orf_veil.Prelude.{
  List, [], ◌∷◌, ◌++◌, length, All, take, drop, take-append-drop, length-take, length-drop,
  All-take, All-drop,
}
use orf_veil.Prelude.Bytes.{Bytes, IsByte}
use orf_veil.Core.Cell.{payload_capacity}
use orf_veil.Core.Fragmentation.{max_message_size, chunks_loop, chunks, div_ceil}

unfoldable pub concat : List Bytes → Bytes
concat [] = []
concat (x ∷ xs) = x ++ concat xs

module _ (size : ℕ) (positive : 0 < size) where
  concat-chunks_loop :
      (fuel : ℕ) (bytes : Bytes)
      → length bytes ≤ fuel
      → concat (chunks_loop fuel size bytes) ≡ bytes
  unfolding chunks_loop concat
  concat-chunks_loop zero [] h = refl
  concat-chunks_loop zero (b ∷ bs) h = absurd (omega arith)
  concat-chunks_loop (suc fuel) [] h = refl
  concat-chunks_loop (suc fuel) (b ∷ bs) h =
      ap (◌++◌ (take size (b ∷ bs)))
        (concat-chunks_loop fuel (drop size (b ∷ bs)) (omega (arith, length-drop size (b ∷ bs))))
      ∙ take-append-drop size (b ∷ bs)

  -- The pieces, joined, are the byte string.
  pub concat-chunks : (bytes : Bytes) → concat (chunks size bytes) ≡ bytes
  unfolding chunks
  concat-chunks bytes = concat-chunks_loop (length bytes) bytes (omega arith)

length-chunks_loop :
    (fuel : ℕ) (bytes : Bytes)
    → length bytes ≤ fuel
    → length (chunks_loop fuel payload_capacity bytes) ≡ (length bytes + 487) / 488
unfolding chunks_loop
length-chunks_loop zero [] h = omega arith
length-chunks_loop zero (b ∷ bs) h = absurd (omega arith)
length-chunks_loop (suc fuel) [] h = omega arith
length-chunks_loop (suc fuel) (b ∷ bs) h =
    let rest = length-drop payload_capacity (b ∷ bs) in
    omega
      (arith, rest, length-chunks_loop fuel (drop payload_capacity (b ∷ bs)) (omega (arith, rest)))

pub div_ceil_lem : (n : ℕ) → div_ceil n payload_capacity ≡ (n + 487) / 488
unfolding div_ceil
div_ceil_lem n = ground arith

-- The number of pieces is the number of cells that `fragment_message` announces.
pub length-chunks :
    (bytes : Bytes)
    → length (chunks payload_capacity bytes) ≡ div_ceil (length bytes) payload_capacity
unfolding chunks
length-chunks bytes = length-chunks_loop (length bytes) bytes (omega arith) ∙ sym (div_ceil_lem _)

-- A message of an accepted size is announced with 1 to 65535 cells.
pub div_ceil_bounds :
    (n : ℕ)
    → 0 < n
    → n ≤ max_message_size
    → (0 < div_ceil n payload_capacity) × (div_ceil n payload_capacity < 65536)
div_ceil_bounds n h k = omega (arith, div_ceil_lem n)

-- No piece is longer than the size.
chunks_loop_bound :
    (size fuel : ℕ) (bytes : Bytes) → All (λ c. length c ≤ size) (chunks_loop fuel size bytes)
unfolding chunks_loop
chunks_loop_bound size zero bytes = tt
chunks_loop_bound size (suc fuel) [] = tt
chunks_loop_bound size (suc fuel) (b ∷ bs) =
    (omega (arith, length-take size (b ∷ bs)), chunks_loop_bound size fuel (drop size (b ∷ bs)))

chunks_loop_bytes :
    (size fuel : ℕ) (bytes : Bytes)
    → All IsByte bytes
    → All (All IsByte) (chunks_loop fuel size bytes)
unfolding chunks_loop
chunks_loop_bytes size zero bytes h = tt
chunks_loop_bytes size (suc fuel) [] h = tt
chunks_loop_bytes size (suc fuel) (b ∷ bs) h = (
  All-take IsByte size (b ∷ bs) h,
  chunks_loop_bytes size fuel (drop size (b ∷ bs)) (All-drop IsByte size (b ∷ bs) h),
)

pub chunks_bound : (size : ℕ) (bytes : Bytes) → All (λ c. length c ≤ size) (chunks size bytes)
unfolding chunks
chunks_bound size bytes = chunks_loop_bound size (length bytes) bytes

pub chunks_bytes :
    (size : ℕ) (bytes : Bytes) → All IsByte bytes → All (All IsByte) (chunks size bytes)
unfolding chunks
chunks_bytes size bytes h = chunks_loop_bytes size (length bytes) bytes h
