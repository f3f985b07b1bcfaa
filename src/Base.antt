-- ===== src/Base.antt =====
-- The names that every part shares: the libraries', passed on, and the helpers of the children.
mod Tests
mod Lists
mod Results
mod Tables
mod Text
mod Letters
mod Integers
mod Parts
pub use Tests.*
pub use Lists.*
unfoldable pub use Results.*
unfoldable pub use Tables.*
unfoldable pub use Text.*
unfoldable pub use Letters.*
unfoldable pub use Integers.*
unfoldable pub use Parts.*
pub use Prim.Native.Nat.{ℕ, zero, suc, ◌+◌, ◌-◌, ◌*◌, ◌/◌, ◌%◌, ◌^◌, ◌≤◌, ◌<◌, min}
pub use Prim.Native.String.{String}
pub use mathlib.Core.Path.{◌≡◌, refl, sym, ap, subst, ◌∙◌}
pub use mathlib.Core.Logic.{◌≢◌, ◌↔◌, ◌⊎◌, inl, inr}
pub use mathlib.Core.Bool.{Bool, true, false, not, ◌&&◌, ◌||◌, decide, false≢true}
pub use mathlib.Core.Option.{Option, none, some}
pub use mathlib.Core.List.{List, [], ◌∷◌, map, Perm, Mem}
pub use native.Mathlib.Omega.{arith}
pub use text.Mathlib.TextEquality.{eq_iff}
pub use text.Mathlib.TextPositions.{eq_refl}
