-- ===== src/Prelude.antt =====
-- Names that the whole development shares: the libraries', passed on, and those of the children.
-- It models no code of its own.
mod Tests
mod Lists
mod Words
mod Int
mod Text
pub use Tests.*
unfoldable pub use Lists.*
pub use Words.*
pub use Int.*
pub use Text.*
unfoldable pub use Text.Digits.*
pub use Prim.Native.Nat.{ℕ, zero, suc, ◌+◌, ◌-◌, ◌*◌, ◌/◌, ◌%◌, ◌^◌, ◌≤◌, ◌<◌}
pub use mathlib.Core.Path.{◌≡◌, refl, sym, ap, ◌∙◌, subst}
pub use mathlib.Core.Logic.{◌≢◌, ◌↔◌, ◌⊎◌, inl, inr}
pub use mathlib.Core.Bool.{Bool, true, false, not, ◌&&◌, ◌||◌}
pub use mathlib.Core.Option.{Option, none, some}
pub use mathlib.Core.List.{List, [], ◌∷◌, ◌++◌, map}
pub use native.Mathlib.Omega.{arith}
