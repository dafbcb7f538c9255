-- ===== src/Prelude.antt =====
-- The names that the other modules share: those of the libraries, passed on, tests and lists over
-- the native numbers, bytes, and the results of calls that may fail.
mod Tests
mod Lists
mod Results
mod Strings
mod Search
mod Decimal
pub use Tests.*
pub use Lists.*
pub use Results.*
unfoldable pub use Decimal.*
pub use Search.*
unfoldable pub use Strings.*
pub use Prim.Native.Nat.{ℕ, zero, suc, ◌+◌, ◌-◌, ◌*◌, ◌/◌, ◌%◌, ◌^◌, ◌≤◌, ◌<◌, min, max}
pub use mathlib.Core.Path.{◌≡◌, refl, sym, ap, ap₂, subst, ◌∙◌}
pub use mathlib.Core.Logic.{◌≢◌, ◌↔◌, ◌⊎◌, inl, inr}
pub use mathlib.Core.Bool.{Bool, true, false, not, ◌&&◌, ◌||◌}
pub use mathlib.Core.Option.{Option, none, some}
pub use mathlib.Core.List.{List, [], ◌∷◌, ◌++◌, map, append-nil, append_assoc}
pub use native.Mathlib.Omega.{arith}
