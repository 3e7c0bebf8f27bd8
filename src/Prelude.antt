-- ===== src/Prelude.antt =====
-- What the other modules share: the libraries' names, passed on, Boolean tests on numbers, lists
-- measured by native numbers, and the predicates and filters by a Boolean test.
mod Tests
mod Lists
mod Visited
mod Sorting
mod Texts
pub use Tests.*
pub use Lists.*
pub use Visited.*
unfoldable pub use Sorting.*
unfoldable pub use Texts.*
pub use Prim.Native.Nat.{ℕ, zero, suc, ◌+◌, ◌-◌, ◌*◌, ◌/◌, ◌%◌, ◌^◌, ◌≤◌, ◌<◌, min, max}
pub use mathlib.Core.Path.{◌≡◌, refl, sym, ap, subst, ◌∙◌}
pub use mathlib.Core.Logic.{◌≢◌, ◌↔◌, ◌⊎◌, inl, inr}
pub use mathlib.Core.Bool.{Bool, true, false, not, ◌&&◌, ◌||◌}
pub use mathlib.Core.Option.{Option, none, some}
pub use mathlib.Core.List.{List, [], ◌∷◌, ◌++◌, map}
pub use native.Mathlib.Omega.{arith}
