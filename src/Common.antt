-- ===== src/Common.antt =====
-- The names that the other modules share: the libraries', passed on, with the Boolean tests, the
-- lists and the equality tests of the children.
mod Tests
mod Lists
mod Equality
mod Sets
mod Text
mod Anys
pub mod Dict
pub use Tests.*
pub use Lists.*
pub use Equality.*
pub use Sets.*
pub use Text.*
pub use Anys.*
pub use Prim.Native.Nat.{ℕ, zero, suc, ◌+◌, ◌-◌, ◌*◌, ◌/◌, ◌%◌, ◌≤◌, ◌<◌}
pub use mathlib.Core.Path.{◌≡◌, refl, sym, ap, ◌∙◌}
pub use mathlib.Core.Logic.{◌≢◌, ◌↔◌, ◌⊎◌, inl, inr}
pub use mathlib.Core.Bool.{Bool, true, false, not, ◌&&◌, ◌||◌}
pub use mathlib.Core.Option.{Option, none, some}
pub use mathlib.Core.List.{List, [], ◌∷◌, ◌++◌, map}
pub use native.Mathlib.Omega.{arith}
