-- ===== src/Base.antt =====
-- The names that all modules share: the libraries', passed on, and those of the children. This
-- module models no source file; `Base.Number` models the C library calls that the sources make on
-- decimal text (strtol, strtoul, std::to_string).
mod Test
mod Lists
pub mod Text
pub mod Int
pub mod Number
pub mod Embeds
unfoldable pub use Test.*
unfoldable pub use Lists.*
pub use Prim.Native.Nat.{ℕ, zero, suc, ◌+◌, ◌-◌, ◌*◌, ◌/◌, ◌%◌, ◌^◌, ◌≤◌, ◌<◌}
pub use mathlib.Core.Path.{◌≡◌, refl, sym, ap, ◌∙◌}
pub use mathlib.Core.Logic.{◌≢◌, ◌↔◌, ◌⊎◌, inl, inr}
pub use mathlib.Core.Bool.{Bool, true, false, ◌&&◌, ◌||◌, not}
pub use mathlib.Core.Option.{Option, none, some}
pub use mathlib.Core.List.{List, [], ◌∷◌, ◌++◌, map}
pub use native.Mathlib.Omega.{arith}
