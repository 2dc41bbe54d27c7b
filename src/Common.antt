-- ===== src/Common.antt =====
-- The names that the modules of the driver share: the libraries', passed on, and those of the
-- children (Boolean tests, lists over the native numbers, bytes and their bits).
mod Tests
mod Lists
mod Bytes
mod Digits
mod Int
mod Options
pub use Tests.*
pub use Lists.*
unfoldable pub use Bytes.*
pub use Digits.*
pub use Int.*
unfoldable pub use Options.*
pub use Prim.Native.Nat.{
  ℕ, zero, suc, ◌+◌, ◌-◌, ◌*◌, ◌/◌, ◌%◌, ◌^◌, ◌≤◌, ◌<◌, bit_and, bit_or, bit_xor,
}
pub use mathlib.Core.Path.{◌≡◌, refl, sym, ap, subst, ◌∙◌}
pub use mathlib.Core.Logic.{◌≢◌, ◌↔◌, ◌⊎◌, inl, inr}
pub use mathlib.Core.Bool.{Bool, true, false, not, ◌&&◌, ◌||◌}
pub use mathlib.Core.Option.{Option, none, some}
pub use mathlib.Core.List.{List, [], ◌∷◌, ◌++◌, map}
pub use native.Mathlib.Omega.{arith}
