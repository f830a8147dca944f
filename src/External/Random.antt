-- ===== src/External/Random.antt =====
-- The `rand` crate: a cryptographic generator as a state that each draw advances.
use orf_veil.Prelude.{ℕ, List, ◌≡◌}
use orf_veil.Prelude.{length, All}
use orf_veil.Prelude.Bytes.{Bytes, IsByte}
use mathlib.Core.List.{Perm}

-- `RngCore::fill_bytes` on a buffer of the given size, `RngCore::next_u64`, and
-- `SliceRandom::shuffle`.
pub record Rng : Type 1 where
  pub State : Type 0
  pub fill_bytes : ℕ → State → Bytes × State
  pub next_u64 : State → ℕ × State
  pub shuffle : (A : Type 0) → List A → State → List A × State

-- A filled buffer keeps its size and holds bytes; a shuffle is a permutation.
pub record RngLaws (r : Rng) : Type 1 where
  pub length-fill_bytes : (n : ℕ) (s : r.State) → length (r.fill_bytes n s).0 ≡ n
  pub fill_bytes-IsByte : (n : ℕ) (s : r.State) → All IsByte (r.fill_bytes n s).0
  pub shuffle-perm : (A : Type 0) (xs : List A) (s : r.State) → Perm (r.shuffle A xs s).0 xs
