-- ===== src/Common.antt =====
-- Names that every module shares: library names passed on, and the children's.
mod Tests
mod Lists
mod Text
pub mod Words
pub mod Int
pub use Tests.*
pub use Lists.*
unfoldable pub use Text.{
  codes, is_space, is_digit, to_lower, str_eq, str_case_eq, starts_with, starts_with_case,
  skip_spaces, digit_value, digits_value, behind_digits,
}
pub use Prim.Native.Nat.{
  ℕ, zero, suc, ◌+◌, ◌-◌, ◌*◌, ◌/◌, ◌%◌, ◌^◌, ◌≤◌, ◌<◌, min, max, bit_and, bit_or, bit_xor,
}
pub use mathlib.Core.Path.{◌≡◌, refl, sym, ap, ◌∙◌, subst}
pub use mathlib.Core.Logic.{◌≢◌, ◌↔◌, ◌⊎◌, inl, inr}
pub use mathlib.Core.Bool.{Bool, true, false, not, ◌&&◌, ◌||◌}
pub use mathlib.Core.Option.{Option, none, some}
pub use mathlib.Core.List.{List, [], ◌∷◌, ◌++◌, map, reverse}
pub use native.Mathlib.Omega.{arith}
