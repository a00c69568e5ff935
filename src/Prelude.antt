-- ===== src/Prelude.antt =====
-- The names that the other modules share: the libraries', passed on, and those of the children.
mod Tests
mod Lists
mod Slices
mod Texts
pub mod Strip
pub use Tests.*
unfoldable pub use Lists.{keep, find?, any, all}
pub use Lists.*
pub use Slices.*
pub use Texts.{codes}
pub use Texts.{
  Text, text_eq_iff, text_eq_refl, text_ne, opt_eq_iff, starts_with_head, starts_with-drop,
}
unfoldable pub use Texts.{text_eq, contains, starts_with, opt_eq}
pub use Prim.Native.Nat.{ℕ, zero, suc, ◌+◌, ◌-◌, ◌*◌, ◌/◌, ◌%◌, ◌^◌, ◌≤◌, ◌<◌, min, max}
pub use mathlib.Core.Path.{◌≡◌, refl, sym, ap, ◌∙◌}
pub use mathlib.Core.Logic.{◌≢◌, ◌↔◌, ◌⊎◌, inl, inr}
pub use mathlib.Core.Bool.{Bool, true, false, not, ◌&&◌, ◌||◌}
pub use mathlib.Core.Option.{Option, none, some}
pub use mathlib.Core.List.{List, [], ◌∷◌, ◌++◌, map, append_assoc, append-nil}
pub use native.Mathlib.Omega.{arith}
