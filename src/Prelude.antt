-- ===== src/Prelude.antt =====
-- The names that the other modules share: those of the libraries, passed on, with tests on numbers
-- and texts, lists measured by native numbers, and maps from texts.
mod Tests
mod Lists
mod Any
mod Maps
mod Decimal
mod Int
unfoldable pub use Tests.*
pub use Lists.*
unfoldable pub use Any.*
unfoldable pub use Maps.*
unfoldable pub use Decimal.{decimal}
pub use Decimal.{decimal_injective}
pub use Int.*
pub use Prim.Native.Nat.{ℕ, zero, suc, ◌+◌, ◌-◌, ◌*◌, ◌/◌, ◌%◌, ◌^◌, ◌≤◌, ◌<◌}
pub use Prim.Native.String.{String}
pub use mathlib.Core.Path.{◌≡◌, refl, sym, ap, ◌∙◌, subst}
pub use mathlib.Core.Logic.{◌≢◌, ◌↔◌, ◌⊎◌, inl, inr}
pub use mathlib.Core.Bool.{Bool, true, false, ◌&&◌, ◌||◌, not}
pub use mathlib.Core.Option.{Option, none, some}
pub use mathlib.Core.List.{List, [], ◌∷◌, ◌++◌, map}
pub use native.Mathlib.Omega.{arith}
