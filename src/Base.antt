-- ===== src/Base.antt =====
-- The names that the other modules share: the libraries', passed on, and those of the children.
-- Numbers are the native ℕ, a text is the list of its code points, a Python dictionary is an
-- association list in insertion order, and a float is a value of an abstract type (Base/Float).
mod Tests
mod Lists
mod Codes
mod Dicts
mod Strings
mod Sizes
mod Tables
pub mod Int
pub mod Float
pub use Tests.*
pub use Lists.*
unfoldable pub use Codes.*
unfoldable pub use Dicts.*
unfoldable pub use Strings.*
pub use Sizes.*
unfoldable pub use Tables.*
pub use Prim.Native.Nat.{ℕ, zero, suc, ◌+◌, ◌-◌, ◌*◌, ◌/◌, ◌%◌, ◌^◌, ◌≤◌, ◌<◌}
pub use mathlib.Core.Path.{◌≡◌, refl, sym, ap, ap₂, subst, ◌∙◌}
pub use mathlib.Core.Logic.{◌≢◌, ◌↔◌, ◌⊎◌, inl, inr}
pub use mathlib.Core.Bool.{Bool, true, false, not, ◌&&◌, ◌||◌}
pub use mathlib.Core.Option.{Option, none, some}
pub use mathlib.Core.List.{List, [], ◌∷◌, ◌++◌, map}
pub use native.Mathlib.Omega.{arith}
