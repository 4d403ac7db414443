-- ===== src/Base.antt =====
-- The names that the other modules share: the libraries', passed on, and those of the children
-- (Boolean tests, lists, Go strings, maps, signed integers).
mod Tests
mod Lists
mod Text
mod Maps
mod Int
pub use Tests.*
pub use Lists.*
pub use Text.{Str, is_empty}
unfoldable pub use Text.{lit, str_eq, one_of, has_prefix, has_suffix, trim_prefix, trim_suffix}
unfoldable pub use Text.{
  contains, before, behind, split, trim_space, trim_right, replace_all, replace_from,
}
pub use Text.Laws.{
  str_eq_refl, str_eq_iff, str_eq_of_ne, is_empty_iff, has_prefix-append, has_prefix_split,
  trim_prefix-append, has_suffix-append, has_suffix_split, trim_suffix-append, Lacks, before-append,
  before_of_Lacks, before-Lacks, before-Lacks_other, has_prefix_of_ne, has_prefix-append_left,
  one_of-all, replace_all-append, replace_all_of_Lacks,
}
pub use Maps.{
  Dict, lookup-insert, lookup-insert_self, lookup-delete, lookup-delete_self, length-insert,
  length-delete, length-retain, HasDistinctKeys, insert-HasDistinctKeys, delete-HasDistinctKeys,
  retain-HasDistinctKeys, lookup-retain-none, lookup-retain,
}
unfoldable pub use Maps.{lookup, insert, delete, retain}
pub use Int.{ℤ, pos, negsuc, pos_part, neg_part, ltb_ℤ}
pub use Prim.Native.Nat.{ℕ, zero, suc, ◌+◌, ◌-◌, ◌*◌, ◌/◌, ◌%◌, ◌^◌, ◌≤◌, ◌<◌}
pub use mathlib.Core.Path.{◌≡◌, refl, sym, ap, ap₂, subst, ◌∙◌}
pub use mathlib.Core.Logic.{◌≢◌, ◌↔◌, ◌⊎◌, inl, inr}
pub use mathlib.Core.Bool.{Bool, true, false, not, ◌&&◌, ◌||◌}
pub use mathlib.Core.Option.{Option, none, some, some-injective}
pub use mathlib.Core.List.{List, [], ◌∷◌, ◌++◌, map, reverse, append-nil, append_assoc}
pub use native.Mathlib.Omega.{arith}
unfoldable pub use native.Mathlib.Decide.{ℕ_discrete}
