-- ===== src/Base.antt =====
-- The names that the other modules share: the libraries', passed on, and those of the children
-- (Boolean tests, lists, JavaScript texts and values, results, integers).
mod Tests
mod Lists
mod Index
mod Slices
mod Results
mod Int
mod Strings
mod Trim
mod Order
mod Maps
mod Search
mod Unknown
pub use Tests.*
pub use Lists.*
pub use Index.*
pub use Slices.*
pub use Results.*
pub use Int.*
unfoldable pub use Strings.*
pub use Trim.*
unfoldable pub use Order.*
unfoldable pub use Maps.*
unfoldable pub use Search.*
unfoldable pub use Unknown.*
pub use Prim.Native.Nat.{ℕ, zero, suc, ◌+◌, ◌-◌, ◌*◌, ◌/◌, ◌%◌, ◌^◌, ◌≤◌, ◌<◌, min}
pub use mathlib.Core.Path.{◌≡◌, refl, sym, ap, ◌∙◌, subst}
pub use mathlib.Core.Logic.{◌≢◌, ◌↔◌, ◌⊎◌, inl, inr}
pub use mathlib.Core.Bool.{Bool, true, false, not, ◌&&◌, ◌||◌}
pub use mathlib.Core.Option.{Option, none, some}
pub use mathlib.Core.List.{List, [], ◌∷◌, ◌++◌, map}
pub use native.Mathlib.Omega.{arith}
