-- ===== src/Prelude/Arrays.antt =====
-- Slices and copies of Rust, which panic on a wrong length: `none` is the panic.
use orf_veil.Prelude.Lists.{length, take, drop}
use orf_veil.Prelude.Tests.{leb, ◌==◌, ==_iff, if◌then◌else◌}
use orf_veil.Prelude.Bytes.{Bytes}
use Prim.Native.Nat.{ℕ, ◌≤◌}
use mathlib.Core.Path.{◌≡◌, refl}
use mathlib.Core.Bool.{true}
use mathlib.Core.Option.{Option, none, some}
use native.Mathlib.Omega.{arith}

-- `copy_from_slice` into an array of so many bytes.
unfoldable pub copy_from_slice : ℕ → Bytes → Option Bytes
copy_from_slice n source = if length source == n then some source else none

-- `&source[..n]`
unfoldable pub slice_to : ℕ → Bytes → Option Bytes
slice_to n source = if leb n (length source) then some (take n source) else none

-- `&source[n..]`
unfoldable pub slice_from : ℕ → Bytes → Option Bytes
slice_from n source = if leb n (length source) then some (drop n source) else none

pub copy_from_slice_fits :
    (n : ℕ) (source : Bytes) → length source ≡ n → copy_from_slice n source ≡ some source
unfolding copy_from_slice
copy_from_slice_fits n source h = rw ((==_iff (length source) n).1 h) refl

pub slice_to_fits :
    (n : ℕ) (source : Bytes) → n ≤ length source → slice_to n source ≡ some (take n source)
unfolding slice_to
slice_to_fits n source h = let e : leb n (length source) ≡ true = ground (arith, h) in rw e refl

pub slice_from_fits :
    (n : ℕ) (source : Bytes) → n ≤ length source → slice_from n source ≡ some (drop n source)
unfolding slice_from
slice_from_fits n source h = let e : leb n (length source) ≡ true = ground (arith, h) in rw e refl
