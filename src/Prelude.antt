-- ===== src/Prelude.antt =====
-- The names that the other modules share: the libraries' names, passed on, the Boolean tests, the
-- list measures and the texts of the model.
mod Tests
mod Lists
mod Strings
mod Sorting
pub use Tests.*
pub use Lists.*
pub use Strings.{
  Text, codes, same_iff, same_refl, same_ne, same_sym, same_trans, has_prefix_iff, equal_fold_refl,
  equal_fold_sym, equal_fold_trans, width,
}
unfoldable pub use Strings.{
  same, text_lt, has_prefix, is_space, lower_rune, to_lower, drop_spaces, trim_space, contains_rune,
  split_on, cut, fields_func, equal_fold, byte_length, drop_bytes, take_bytes,
}
pub use Sorting.{In-sort_texts, In-of_sort_texts, IsSorted, sort_texts-IsSorted}
unfoldable pub use Sorting.{sort_texts}
pub use Prim.Native.Nat.{ℕ, zero, suc, ◌+◌, ◌-◌, ◌*◌, ◌/◌, ◌%◌, ◌^◌, ◌≤◌, ◌<◌}
pub use Prim.Native.String.{String}
pub use mathlib.Core.Path.{◌≡◌, refl, sym, ap, ◌∙◌, subst}
pub use mathlib.Core.Logic.{◌≢◌, ◌↔◌, ◌⊎◌, inl, inr}
pub use mathlib.Core.Bool.{Bool, true, false, ◌&&◌, ◌||◌, not}
pub use mathlib.Core.Option.{Option, none, some}
pub use mathlib.Core.List.{List, [], ◌∷◌, ◌++◌, map, reverse}
pub use native.Mathlib.Omega.{arith}
