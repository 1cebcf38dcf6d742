-- ===== src/Base.antt =====
-- The names that every component shares: the libraries', passed on, and those of the children:
-- Boolean tests and the conditional, C arrays and the loops over them, machine words and bytes.
mod Tests
mod Loops
mod Words
pub mod Bits
pub mod Int
mod Lists
mod Options
pub use Tests.*
pub use Loops.*
unfoldable pub use Loops.{find_from, for_from, count_below}
pub use Words.*
pub use Lists.*
pub use Options.*
pub use Prim.Native.Nat.{ℕ, zero, suc, ◌+◌, ◌-◌, ◌*◌, ◌/◌, ◌%◌, ◌^◌, ◌≤◌, ◌<◌, bit_and, bit_or, min}
pub use mathlib.Core.Path.{◌≡◌, refl, sym, ◌∙◌, ap, subst}
pub use mathlib.Core.Logic.{◌≢◌, ◌↔◌, ◌⊎◌, inl, inr}
pub use mathlib.Core.Bool.{Bool, true, false, ◌&&◌, ◌||◌, not}
pub use mathlib.Core.Option.{Option, none, some, some-injective}
pub use mathlib.Core.List.{List, [], ◌∷◌, ◌++◌}
pub use native.Mathlib.Omega.{arith}
