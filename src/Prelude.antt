-- ===== src/Prelude.antt =====
-- The names that the other modules share: those of the libraries in use, passed on, and the shared
-- helpers on tests, lists, results, byte strings, dictionaries and UTF-8.
mod Tests
mod Lists
pub mod Result
pub mod Bytes
pub mod Map
pub mod Utf8
pub mod Trim
pub mod Decimal
pub mod Perms
pub mod Arrays
pub mod Lossy
pub use Tests.*
pub use Lists.*
unfoldable pub use Lists.{get_or, take, drop, replicate, get_elem?, set}
pub use Prim.Native.Nat.{ℕ, zero, suc, ◌+◌, ◌-◌, ◌*◌, ◌/◌, ◌%◌, ◌^◌, ◌≤◌, ◌<◌, min, max}
pub use mathlib.Core.Path.{◌≡◌, refl, sym, ap, ap₂, ◌∙◌, ◌≡⟨◌⟩◌, ◌∎}
pub use mathlib.Core.Logic.{◌≢◌, ◌↔◌, ◌⊎◌, inl, inr}
pub use mathlib.Core.Bool.{Bool, true, false, not, ◌&&◌, ◌||◌}
pub use mathlib.Core.Option.{Option, none, some}
pub use mathlib.Core.List.{List, [], ◌∷◌, ◌++◌, map}
pub use native.Mathlib.Omega.{arith}
