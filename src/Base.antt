-- ===== src/Base.antt =====
-- The names that all modules share: the libraries', passed on, and those of the children below
-- (Boolean tests, lists measured by native numbers, byte strings, 64-bit integers).
mod Tests
mod Lists
mod ByteStrings
mod Rows
mod Deletes
pub mod Int
pub use Tests.*
pub use Lists.*
unfoldable pub use ByteStrings.*
pub use Rows.*
pub use Deletes.*
pub use Prim.Native.Nat.{ℕ, zero, suc, ◌+◌, ◌-◌, ◌*◌, ◌/◌, ◌%◌, ◌^◌, ◌≤◌, ◌<◌}
pub use mathlib.Core.Path.{◌≡◌, refl, sym, ap, subst, ◌∙◌}
pub use mathlib.Core.Logic.{◌≢◌, ◌↔◌, ◌⊎◌, inl, inr}
pub use mathlib.Core.Bool.{Bool, true, false, ◌&&◌, ◌||◌, not}
pub use mathlib.Core.Option.{Option, none, some}
pub use mathlib.Core.List.{List, [], ◌∷◌, ◌++◌, map, append_assoc, append-nil}
pub use native.Mathlib.Omega.{arith}
