-- ===== src/Prelude.antt =====
-- The names that the modules of the console share: the libraries', passed on, and five children.
mod Tests
mod Lists
mod Text
mod Sort
mod Keys
mod Maps
mod Tally
pub use Tests.*
pub use Lists.*
unfoldable pub use Text.{text_ltb}
pub use Text.*
unfoldable pub use Sort.{sort_by, insert}
pub use Sort.*
pub use Keys.*
pub use Maps.*
pub use Tally.*
pub use Prim.Native.Nat.{ℕ, zero, suc, ◌+◌, ◌-◌, ◌*◌, ◌/◌, ◌%◌, ◌^◌, ◌≤◌, ◌<◌, min, max}
pub use Prim.Native.String.{String, ◌++◌ as str_append}
pub use mathlib.Core.Path.{◌≡◌, refl, sym, ap, subst, ◌∙◌}
pub use mathlib.Core.Logic.{◌≢◌, ◌↔◌, ◌⊎◌, inl, inr}
pub use mathlib.Core.Bool.{Bool, true, false, ◌&&◌, ◌||◌}
pub use mathlib.Core.Option.{Option, none, some}
pub use mathlib.Core.List.{List, [], ◌∷◌, ◌++◌, map}
pub use native.Mathlib.Omega.{arith}
pub use text.Mathlib.Text.{◌==◌ as str_eq}
pub use text.Mathlib.TextEquality.{eq_iff}
