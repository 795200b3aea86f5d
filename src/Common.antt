-- ===== src/Common.antt =====
-- The names that the other modules share.
mod Tests
mod Int
mod Bytes
mod Lists
mod Search
mod Order
mod Keys
mod Pieces
pub use Tests.*
unfoldable pub use Int.*
unfoldable pub use Bytes.*
unfoldable pub use Lists.*
pub use Search.*
pub use Order.*
pub use Keys.*
pub use Pieces.*
pub use Prim.Native.Nat.{ℕ, zero, suc, ◌+◌, ◌-◌, ◌*◌, ◌/◌, ◌%◌, ◌^◌, ◌≤◌, ◌<◌}
pub use mathlib.Core.Path.{◌≡◌, refl, sym, ap, subst, ◌∙◌}
pub use mathlib.Core.Logic.{◌≢◌, ◌↔◌, ◌⊎◌, inl, inr}
pub use mathlib.Core.Bool.{Bool, true, false, not, ◌&&◌, ◌||◌}
pub use mathlib.Core.Option.{Option, none, some}
pub use mathlib.Core.List.{List, [], ◌∷◌, ◌++◌, map, Mem}
pub use native.Mathlib.Omega.{arith}
