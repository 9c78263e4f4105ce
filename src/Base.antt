-- ===== src/Base.antt =====
-- Names that every module shares: library names passed on, Boolean tests, lists and texts.
mod Tests
mod Lists
mod Text
pub mod Decimal
pub mod Int
pub use Tests.*
pub use Lists.*
unfoldable pub use Text.{Str, codes, str_eq, str_ltb, has_prefix}
pub use Text.{str_eq_iff, str_eq_refl, str_eq→≡, not_str_eq, str_ltb_irrefl, str_ltb_trans}
pub use Prim.Native.Nat.{ℕ, zero, suc, ◌+◌, ◌-◌, ◌*◌, ◌/◌, ◌%◌, ◌^◌, ◌≤◌, ◌<◌}
pub use Prim.Native.String.{String}
pub use mathlib.Core.Path.{◌≡◌, refl, sym, ap, ◌∙◌}
pub use mathlib.Core.Logic.{◌≢◌, ◌↔◌, ◌⊎◌, inl, inr}
pub use mathlib.Core.Bool.{Bool, true, false, not, ◌&&◌, ◌||◌}
pub use mathlib.Core.Option.{Option, none, some}
pub use mathlib.Core.List.{List, [], ◌∷◌, ◌++◌, map}
pub use native.Mathlib.Omega.{arith}
