-- ===== src/Base.antt =====
-- The names that all modules share: the libraries' names passed on, Boolean tests on native
-- numbers, lists, equality tests as instances, Go's errors, and Go's built-in map.
mod Bools
mod Lists
mod Eqs
mod Results
mod Texts
pub mod GoMap
pub use Bools.*
pub use Lists.*
pub use Eqs.*
pub use Results.*
pub use Texts.*
pub use Prim.Native.Nat.{ℕ, zero, suc, ◌+◌, ◌-◌, ◌*◌, ◌/◌, ◌%◌, ◌^◌, ◌≤◌, ◌<◌}
pub use Prim.Native.String.{String}
pub use mathlib.Core.Path.{◌≡◌, refl, sym, ap, ◌∙◌, subst}
pub use mathlib.Core.Logic.{◌≢◌, ◌↔◌, ◌⊎◌, inl, inr}
pub use mathlib.Core.Bool.{Bool, true, false, not, ◌&&◌, ◌||◌}
pub use mathlib.Core.Option.{Option, none, some}
pub use mathlib.Core.List.{List, [], ◌∷◌, ◌++◌, map}
pub use native.Mathlib.Omega.{arith}
