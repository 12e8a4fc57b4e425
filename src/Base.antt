-- ===== src/Base.antt =====
-- What the modules share: the library names they take, Boolean tests on native numbers, results,
-- byte strings, and predicates on lists. No source file is modelled here.
mod Tests
mod Results
mod Lists
mod Classes
mod Posts
mod Members
mod Searches
mod Failures
pub use Tests.*
unfoldable pub use Results.*
pub use Lists.*
pub use Classes.*
pub use Posts.*
pub use Members.*
pub use Searches.*
pub use Failures.*
pub use Prim.Native.Nat.{ℕ, zero, suc, ◌+◌, ◌-◌, ◌*◌, ◌/◌, ◌%◌, ◌^◌, ◌≤◌, ◌<◌}
pub use Prim.Native.String.{String}
pub use mathlib.Core.Path.{◌≡◌, refl, sym, ap, ◌∙◌}
pub use mathlib.Core.Logic.{◌≢◌, ◌↔◌, ◌⊎◌, inl, inr}
pub use mathlib.Core.Bool.{Bool, true, false, ◌&&◌, ◌||◌, not}
pub use mathlib.Core.Option.{Option, none, some}
pub use mathlib.Core.List.{List, [], ◌∷◌, ◌++◌, map}
pub use native.Mathlib.Omega.{arith}
