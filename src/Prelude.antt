-- ===== src/Prelude.antt =====
-- The names that the components share: the libraries', passed on, and those of the children below,
-- which hold Boolean tests, lists over the native numbers, byte texts, results and searches.
mod Tests
mod Lists
mod Texts
mod Results
mod Searches
mod Numbers
mod Maps
mod Sorted
mod Keys
pub use Tests.*
pub use Lists.*
unfoldable pub use Texts.*
pub use Results.*
pub use Numbers.*
unfoldable pub use Maps.*
pub use Sorted.*
unfoldable pub use Keys.*
unfoldable pub use Searches.*
pub use Prim.Native.Nat.{ℕ, zero, suc, ◌+◌, ◌-◌, ◌*◌, ◌≤◌, ◌<◌}
pub use mathlib.Core.Path.{◌≡◌, refl, sym, ap, ap₂, ◌∙◌}
pub use mathlib.Core.Logic.{◌≢◌, ◌↔◌, ◌⊎◌, inl, inr}
pub use mathlib.Core.Bool.{Bool, true, false, not, ◌&&◌, ◌||◌}
pub use mathlib.Core.Option.{Option, none, some, some-injective}
pub use mathlib.Core.List.{List, [], ◌∷◌, ◌++◌, map}
pub use native.Mathlib.Omega.{arith}
