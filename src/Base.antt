-- ===== src/Base.antt =====
-- The names that the other modules share: the libraries', passed on, and those of the children
-- `Test` (Boolean tests) and `Lists`.
mod Test
mod Lists
mod Int
pub use Int.*
pub use Test.*
unfoldable pub use Lists.*
pub use Prim.Native.Nat.{ℕ, zero, suc, ◌+◌, ◌-◌, ◌*◌, ◌/◌, ◌%◌, ◌^◌, ◌≤◌, ◌<◌, min, max}
pub use mathlib.Core.Path.{◌≡◌, refl, sym, ap, ◌∙◌}
pub use mathlib.Core.Logic.{◌≢◌, ◌↔◌, ◌⊎◌, inl, inr}
pub use mathlib.Core.Bool.{Bool, true, false, not, ◌&&◌, ◌||◌}
pub use mathlib.Core.Option.{Option, none, some}
pub use mathlib.Core.List.{List, [], ◌∷◌, ◌++◌, map, append_assoc}
pub use native.Mathlib.Omega.{arith}
