-- ===== src/Prelude.antt =====
-- The names that the other modules share: the libraries', passed on, and those of the children.
mod Tests
mod Lists
mod Maps
mod Weights
mod Time
mod Text
mod Words
mod Decimal
pub mod Int
pub mod Actions
pub use Tests.{
  ltb, leb, ◌==◌, if◌then◌else◌, Bool-cases, Option-cases, same, same-ne, same_refl, same→eq,
}
unfoldable pub use Tests.{string_discrete}
pub use Lists.*
unfoldable pub use Maps.*
pub use Weights.*
unfoldable pub use Int.*
unfoldable pub use Time.*
unfoldable pub use Text.*
pub use Words.*
unfoldable pub use Decimal.*
pub use Prim.Native.Nat.{ℕ, zero, suc, ◌+◌, ◌-◌, ◌*◌, ◌/◌, ◌%◌, ◌^◌, ◌≤◌, ◌<◌}
pub use Prim.Native.String.{String}
pub use mathlib.Core.Path.{◌≡◌, refl, sym, ap, ◌∙◌}
pub use mathlib.Core.Logic.{◌≢◌, ◌↔◌, ◌⊎◌, inl, inr, ite, if_pos, if_neg}
pub use mathlib.Core.Bool.{Bool, true, false, not, ◌&&◌, ◌||◌}
pub use mathlib.Core.Option.{Option, none, some}
pub use mathlib.Core.List.{List, [], ◌∷◌, ◌++◌, map}
unfoldable pub use mathlib.Core.List.{lookup}
pub use native.Mathlib.Omega.{arith}
unfoldable pub use native.Mathlib.Decide.{ℕ_discrete}
