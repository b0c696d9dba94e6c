-- ===== src/Prelude.antt =====
-- Names that the other modules share: the library's, passed on, and those of the children:
-- Boolean tests, sequences, equality tests, Python's dict and exceptions as values.
mod Tests
mod Lists
mod Equality
pub mod Bytes
pub mod Codec
pub mod Affixes
pub mod Dict
pub mod Result
pub mod Program
pub mod Int
pub mod Sums
unfoldable pub use Tests.{passes_below}
pub use Tests.*
pub use Lists.*
pub use Equality.*
pub use Prim.Native.Nat.{ℕ, zero, suc, ◌+◌, ◌-◌, ◌*◌, ◌/◌, ◌%◌, ◌^◌, ◌≤◌, ◌<◌}
pub use Prim.Native.String.{String}
pub use mathlib.Core.Path.{◌≡◌, refl, sym, ap, ◌∙◌}
pub use mathlib.Core.Logic.{◌≢◌, ◌↔◌, ◌⊎◌, inl, inr}
pub use mathlib.Core.Bool.{Bool, true, false, ◌&&◌, ◌||◌, not}
pub use mathlib.Core.Option.{Option, none, some}
pub use mathlib.Core.List.{List, [], ◌∷◌, ◌++◌, map}
pub use native.Mathlib.Omega.{arith}
