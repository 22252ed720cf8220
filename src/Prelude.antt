-- ===== src/Prelude.antt =====
-- The names that the other modules share: the libraries' names passed on, tests and conditionals,
-- equality, lists, integers, dictionaries.
mod Tests
mod Equality
mod Lists
pub mod Int
pub mod Dict
pub mod Partial
pub mod Result
pub use Tests.*
pub use Equality.{Eq, ◌==◌, contains, ==_self}
unfoldable pub use Equality.{nat_eq, list_eq, pair_eq, option_eq, eq_of}
pub use Lists.*
pub use Prim.Native.Nat.{ℕ, zero, suc, ◌+◌, ◌-◌, ◌*◌, ◌/◌, ◌%◌, ◌^◌, ◌≤◌, ◌<◌, min, max}
pub use Prim.Native.String.{String}
pub use mathlib.Core.Path.{◌≡◌, refl, sym, ap, ◌∙◌, subst}
pub use mathlib.Core.Logic.{◌≢◌, ◌↔◌, ◌⊎◌, inl, inr}
pub use mathlib.Core.Bool.{Bool, true, false, not, ◌&&◌, ◌||◌}
pub use mathlib.Core.Option.{Option, none, some}
pub use mathlib.Core.List.{List, [], ◌∷◌, ◌++◌, map}
pub use native.Mathlib.Omega.{arith}
unfoldable pub use native.Mathlib.Decide.{dec_lt, ℕ_discrete}
