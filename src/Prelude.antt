-- ===== src/Prelude.antt =====
-- The names that the other modules share: the library's, passed on, and those of the children.
mod Tests
mod Text
mod Results
mod Lists
mod Lines
pub use Tests.*
unfoldable pub use Text.{
  remove_prefix, starts_with, ends_with, all_codes, join, is_blank, is_space, strip, strip_left,
  strip_prefix, text_take,
}
pub use Text.*
pub use Results.*
unfoldable pub use Lists.{contains, keep, last, find}
pub use Lists.*
unfoldable pub use Lines.{
  pieces, without_last, splitlines, partition, strip_code_left, strip_code_right, strip_code,
  split_at, remove_suffix,
}
pub use Lines.*
pub use Prim.Native.Nat.{ℕ, zero, suc, ◌+◌, ◌-◌, ◌*◌, ◌≤◌, ◌<◌}
pub use Prim.Native.String.{String}
pub use mathlib.Core.Path.{◌≡◌, refl, sym, ap, subst, ◌∙◌}
pub use mathlib.Core.Logic.{◌≢◌, ◌↔◌, ◌⊎◌, inl, inr}
pub use mathlib.Core.Bool.{Bool, true, false, not, ◌&&◌, ◌||◌}
pub use mathlib.Core.Option.{Option, none, some}
pub use mathlib.Core.List.{List, [], ◌∷◌, ◌++◌}
pub use native.Mathlib.Omega.{arith}
pub use text.Mathlib.Text.{◌==◌}
pub use text.Mathlib.TextEquality.{eq_iff}
pub use text.Mathlib.TextPositions.{eq_refl}
