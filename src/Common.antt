-- ===== src/Common.antt =====
-- The names that the other modules share: the libraries', passed on, and the Boolean tests and
-- list operations of its children.
mod Tests
mod Lists
mod Member
mod Texts
mod Queries
mod Finds
mod Selected
pub use Tests.*
pub use Lists.*
pub use Member.*
unfoldable pub use Texts.*
pub use Queries.*
pub use Finds.*
pub use Selected.*
pub use Prim.Native.Nat.{ℕ, zero, suc, ◌+◌, ◌-◌, ◌*◌, ◌/◌, ◌%◌, ◌≤◌, ◌<◌}
pub use Prim.Native.String.{String}
pub use mathlib.Core.Path.{◌≡◌, refl, sym, ap, subst, ◌∙◌}
pub use mathlib.Core.Logic.{◌≢◌, ◌↔◌, ◌⊎◌, inl, inr}
pub use mathlib.Core.Bool.{Bool, true, false, not, ◌&&◌, ◌||◌}
pub use mathlib.Core.Option.{Option, none, some}
pub use mathlib.Core.List.{List, [], ◌∷◌, ◌++◌, map}
pub use native.Mathlib.Omega.{arith}
