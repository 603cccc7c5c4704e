-- ===== src/Base.antt =====
-- What every module shares: library names passed on, and the children below, which hold Go's
-- comparisons, its (value, error) results, its maps, its stable sort and its decimal printer.
mod Tests
mod Results
mod Maps
mod Sort
mod Sorted
mod Later
mod Decimal
mod Strings
unfoldable pub use Tests.*
unfoldable pub use Results.*
unfoldable pub use Maps.*
unfoldable pub use Sort.*
pub use Sorted.*
pub use Later.*
unfoldable pub use Decimal.*
unfoldable pub use Strings.*
pub use Prim.Native.Nat.{ℕ, zero, suc, ◌+◌, ◌-◌, ◌*◌, ◌≤◌, ◌<◌}
pub use Prim.Native.String.{String, ◌++◌ as ◌<>◌}
pub use mathlib.Core.Path.{◌≡◌, refl, sym, ap, ◌∙◌, subst}
pub use mathlib.Core.Logic.{◌≢◌, ◌↔◌, ◌⊎◌, inl, inr}
pub use mathlib.Core.Bool.{Bool, true, false, ◌&&◌, ◌||◌, not}
pub use mathlib.Core.Option.{Option, none, some}
pub use mathlib.Core.List.{List, [], ◌∷◌, ◌++◌, map}
pub use native.Mathlib.Omega.{arith}
