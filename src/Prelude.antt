-- ===== src/Prelude.antt =====
-- The names that the modules of the development share: the libraries', passed on, Boolean tests
-- on numbers, list operations of the query layer, and integers over the native numbers.
mod Tests
mod Lists
mod Keyed
mod Texts
mod Sorted
mod Queries
pub mod Int
pub use Tests.*
pub use Keyed.*
unfoldable pub use Lists.*
unfoldable pub use Texts.*
unfoldable pub use Sorted.*
pub use Queries.*
pub use Prim.Native.Nat.{ℕ, zero, suc, ◌+◌, ◌-◌, ◌*◌, ◌/◌, ◌%◌, ◌^◌, ◌≤◌, ◌<◌, min, max}
pub use Prim.Native.String.{String}
pub use mathlib.Core.Path.{◌≡◌, refl, sym, ap, ◌∙◌, fun_ext}
pub use mathlib.Core.Logic.{◌≢◌, ◌↔◌, ◌⊎◌, inl, inr}
pub use mathlib.Core.Bool.{Bool, true, false, not, ◌&&◌, ◌||◌}
pub use mathlib.Core.Option.{Option, none, some}
pub use mathlib.Core.List.{List, [], ◌∷◌, ◌++◌, map}
pub use native.Mathlib.Omega.{arith}
