-- ===== src/Base.antt =====
-- The names that all modules share: those of the libraries, passed on, Boolean tests, lists, texts
-- and the few facts about them that several components use.
mod Tests
mod Lists
mod Texts
mod Keep
mod Sort
mod Int
pub use Tests.*
pub use Lists.*
pub use Keep.*
unfoldable pub use Texts.*
unfoldable pub use Sort.{insert, sort}
pub use Sort.{
  IsOrdered, All-insert, All-sort, In-sort, sort-IsOrdered, sort_of_IsOrdered, sort-sort, find-sort,
  includes-sort, before_asym, keep-All, keep-IsOrdered, is_unique-keep, keep-sort, keep-keep,
  IsStrict, sort-IsStrict,
}
pub use Int.*
pub use Prim.Native.Nat.{ℕ, zero, suc, ◌+◌, ◌-◌, ◌≤◌, ◌<◌}
pub use Prim.Native.String.{String}
pub use mathlib.Core.Path.{◌≡◌, refl, sym, ap, ap₂, ◌∙◌, subst}
pub use mathlib.Core.Logic.{◌≢◌, ◌↔◌, ◌⊎◌, inl, inr}
pub use mathlib.Core.Bool.{Bool, true, false, not, ◌&&◌, ◌||◌}
pub use mathlib.Core.Option.{Option, none, some}
pub use mathlib.Core.List.{List, [], ◌∷◌, ◌++◌, map}
pub use native.Mathlib.Omega.{arith}
