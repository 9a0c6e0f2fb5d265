-- ===== src/Base.antt =====
-- The names that the components share: the libraries', passed on, and those of the children.
pub mod Tests
pub mod Lists
pub mod Int
pub mod Results
pub mod Maps
pub mod Text
pub mod Comma
pub mod Bytes
pub mod Paging
pub use Tests.*
pub use Lists.*
pub use Int.*
pub use Results.*
pub use Maps.{Assoc, lookup-insert, lookup-delete, lookup-nil, assoc_laws}
unfoldable pub use Maps.{lookup, insert, delete}
pub use Comma.{NoComma, split_comma-join_comma}
unfoldable pub use Comma.{split_comma, join_comma}
pub use Text.{==_of_ne, ne_of_test, cons-ne-nil_test}
unfoldable pub use Text.{
  trim, trim_left, trim_right, is_space, has_suffix, trim_suffix, byte_len, keep_before,
  after_prefix, before_comma, before_last_colon,
}
pub use Prim.Native.Nat.{ℕ, zero, suc, ◌+◌, ◌-◌, ◌*◌, ◌/◌, ◌%◌, ◌^◌, ◌≤◌, ◌<◌, min, max}
pub use Prim.Native.String.{String}
pub use mathlib.Core.Path.{◌≡◌, refl, sym, ap, subst, ◌∙◌}
pub use mathlib.Core.Logic.{◌≢◌, ◌↔◌, ◌⊎◌, inl, inr}
pub use mathlib.Core.Bool.{Bool, true, false, not, ◌&&◌, ◌||◌}
pub use mathlib.Core.Option.{Option, none, some}
pub use mathlib.Core.List.{List, [], ◌∷◌, ◌++◌, map}
pub use native.Mathlib.Omega.{arith}
pub use text.Mathlib.Text.{◌==◌}
pub use text.Mathlib.TextEquality.{eq_iff}
pub use text.Mathlib.TextPositions.{eq_refl}
