-- ===== src/Base.antt =====
-- Names that every module shares: the libraries' own, passed on, and the small helpers of the
-- children: Boolean tests with their equality interface, lists over the native numbers, and
-- tables of rows under a key.
pub mod Tests
pub mod Lists
pub mod Table
pub mod Result
pub mod Text
pub mod Effects
pub mod TextOrder
unfoldable pub use Tests.*
unfoldable pub use Table.*
unfoldable pub use Lists.*
pub use Prim.Native.Nat.{ℕ, zero, suc, ◌+◌, ◌-◌, ◌*◌, ◌≤◌, ◌<◌}
pub use Prim.Native.String.{String}
pub use mathlib.Core.Path.{◌≡◌, refl, sym, ap, ◌∙◌}
pub use mathlib.Core.Logic.{◌≢◌, ◌↔◌, ◌⊎◌, inl, inr}
pub use mathlib.Core.Bool.{Bool, true, false, not, ◌&&◌, ◌||◌}
pub use mathlib.Core.Option.{Option, none, some}
pub use mathlib.Core.List.{List, [], ◌∷◌, ◌++◌, map}
pub use text.Mathlib.TextEquality.{eq_iff}
pub use native.Mathlib.Omega.{arith}
