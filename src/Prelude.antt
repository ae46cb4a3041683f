-- ===== src/Prelude.antt =====
-- The names that the other modules share: the libraries', passed on, and those of the children.
mod Tests
mod Lists
mod Maps
mod Counting
mod Texts
mod Sorting
pub mod Int
pub mod Machine
pub mod Decimal
pub use Tests.*
pub use Lists.*
pub use Maps.{
  Dict, lookup-insert, lookup-delete, lookup-adjust, lookup-map_values, Distinct, insert-Distinct,
}
unfoldable pub use Maps.{lookup, insert, delete, adjust, map_values}
pub use Counting.{Within, length-Within, Within-all}
pub use Sorting.{sort_strings-again}
pub use Texts.{Text-cases, text_leb, contains-append, contains-sort_strings}
unfoldable pub use Texts.{contains, sort_strings}
pub use Prim.Native.Nat.{ℕ, zero, suc, ◌+◌, ◌-◌, ◌*◌, ◌/◌, ◌%◌, ◌^◌, ◌≤◌, ◌<◌}
pub use Prim.Native.String.{String}
pub use mathlib.Core.Path.{◌≡◌, refl, sym, ap, subst, ◌∙◌, fun_ext}
pub use mathlib.Core.Logic.{◌≢◌, ◌↔◌, ◌⊎◌, inl, inr}
pub use mathlib.Core.Bool.{Bool, true, false, not, ◌&&◌, ◌||◌}
pub use mathlib.Core.Option.{Option, none, some}
pub use mathlib.Core.List.{List, [], ◌∷◌, ◌++◌, map}
pub use native.Mathlib.Omega.{arith}
pub use text.Mathlib.Text.{◌==◌}
pub use text.Mathlib.TextEquality.{eq_iff}
pub use text.Mathlib.TextPositions.{eq_refl}
