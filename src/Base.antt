-- ===== src/Base.antt =====
-- The names that every other module shares: the libraries', passed on, and those of the children.
mod Tests
mod Lists
mod Text
mod Results
pub mod Dict
pub mod Entries
pub mod Strip
pub use Tests.*
pub use Lists.*
pub use Text.Decimal.{show_inj}
pub use Text.{String, ◌<>◌, codes, eq_iff, eq_refl, str_eq_cases}
unfoldable pub use Text.{
  str_eq, is_empty, show, repr_list, lower, contains_codes, contains_text, same_codes, starts_with,
  same_list,
}
pub use Results.*
pub use Prim.Native.Nat.{ℕ, zero, suc, ◌+◌, ◌-◌, ◌*◌, ◌/◌, ◌%◌, ◌≤◌, ◌<◌}
pub use mathlib.Core.Path.{◌≡◌, refl, sym, ap, ◌∙◌}
pub use mathlib.Core.Logic.{◌≢◌, ◌↔◌, ◌⊎◌, inl, inr}
pub use mathlib.Core.Bool.{Bool, true, false, not, ◌&&◌, ◌||◌}
pub use mathlib.Core.Option.{Option, none, some}
pub use mathlib.Core.List.{List, [], ◌∷◌, ◌++◌, map}
pub use native.Mathlib.Omega.{arith}
