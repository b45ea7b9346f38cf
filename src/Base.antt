-- ===== src/Base.antt =====
-- Names that the modules share: the libraries', passed on, and those of the children.
mod Tests
mod Lists
mod Ordered
mod Int
mod Maps
mod Errors
mod Bytes
pub mod Actions
pub use Tests.{ltb, leb, if◌then◌else◌, ltb→lt, lt→ltb, leb→le, ==_iff, Bool-cases, Option-cases}
pub use Lists.*
unfoldable pub use Ordered.*
pub use Int.*
unfoldable pub use Maps.*
pub use Errors.*
unfoldable pub use Bytes.*
pub use Prim.Native.Nat.{ℕ, zero, suc, ◌+◌, ◌-◌, ◌*◌, ◌/◌, ◌%◌, ◌^◌, ◌≤◌, ◌<◌, min}
pub use mathlib.Core.Path.{◌≡◌, refl, sym, ap, ◌∙◌, subst}
pub use mathlib.Core.Logic.{◌≢◌, ◌↔◌, ◌⊎◌, inl, inr}
pub use mathlib.Core.Bool.{Bool, true, false, not, ◌&&◌, ◌||◌}
pub use mathlib.Core.Option.{Option, none, some}
pub use mathlib.Core.List.{List, [], ◌∷◌, ◌++◌, map}
pub use native.Mathlib.Omega.{arith}
