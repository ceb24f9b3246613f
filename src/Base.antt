-- ===== src/Base.antt =====
-- Names that all modules share: the libraries', passed on, and those of the children. No code of
-- the repository is modelled here, but for the slice helpers of pkg/util/strutil.go in Base/Slices.
mod Tests
mod Lists
mod Maps
mod Slices
mod Texts
pub mod Int
pub use Tests.*
pub use Lists.*
pub use Maps.*
pub use Slices.*
pub use Texts.*
unfoldable pub use Maps.{lookup, insert, erase, merge}
unfoldable pub use Slices.{contains, remove_string}
unfoldable pub use Texts.{split, trim_space, cut_last, has_prefix, contains_text, replace_first}
pub use Prim.Native.Nat.{ℕ, zero, suc, ◌+◌, ◌-◌, ◌*◌, ◌/◌, ◌%◌, ◌^◌, ◌≤◌, ◌<◌}
pub use Prim.Native.String.{String}
pub use mathlib.Core.Path.{◌≡◌, refl, sym, ap, ◌∙◌}
pub use mathlib.Core.Logic.{◌≢◌, ◌↔◌, ◌⊎◌, inl, inr}
pub use mathlib.Core.Bool.{Bool, true, false, not, ◌&&◌, ◌||◌}
pub use mathlib.Core.Option.{Option, none, some}
pub use mathlib.Core.List.{List, [], ◌∷◌, ◌++◌, map}
pub use native.Mathlib.Omega.{arith}
pub use text.Mathlib.Text.{◌==◌}
pub use text.Mathlib.TextEquality.{eq_iff}
pub use text.Mathlib.TextPositions.{eq_refl}
