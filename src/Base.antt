-- ===== src/Base.antt =====
-- The names that all modules share: the libraries', passed on, and those of the children below.
pub mod Tests
pub mod Lists
pub mod Positions
pub mod Outcome
pub mod Words
pub mod Swaps
pub mod Int
pub mod Maps
pub mod Vector
pub use Tests.*
pub use Lists.*
pub use Positions.*
unfoldable pub use Outcome.*
pub use Words.*
unfoldable pub use Swaps.*
pub use Prim.Native.Nat.{ℕ, zero, suc, ◌+◌, ◌-◌, ◌*◌, ◌/◌, ◌%◌, ◌^◌, ◌≤◌, ◌<◌}
pub use mathlib.Core.Path.{◌≡◌, refl, sym, ap, ◌∙◌}
pub use mathlib.Core.Logic.{◌≢◌, ◌↔◌, ◌⊎◌, inl, inr}
pub use mathlib.Core.Bool.{Bool, true, false, not, ◌&&◌, ◌||◌}
pub use mathlib.Core.Option.{Option, none, some}
pub use mathlib.Core.List.{List, [], ◌∷◌, ◌++◌, map, Perm}
pub use native.Mathlib.Omega.{arith}
unfoldable pub use native.Mathlib.Decide.{dec_lt, ℕ_discrete}
