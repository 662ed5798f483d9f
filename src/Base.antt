-- ===== src/Base.antt =====
-- Names that every part uses: the libraries' names passed on, Boolean tests, lists and machine words
-- over the native numbers.
mod Tests
mod Lists
mod Words
pub mod Options
pub use Tests.*
pub use Lists.*
pub use Words.*
unfoldable pub use Tests.{string_eq}
unfoldable pub use Words.{le_bytes, le_value, sign_extend}
pub use Prim.Native.Nat.{ℕ, zero, suc, ◌+◌, ◌-◌, ◌*◌, ◌/◌, ◌%◌, ◌^◌, ◌≤◌, ◌<◌, min, max}
pub use mathlib.Core.Path.{◌≡◌, refl, sym, ap, ◌∙◌, subst}
pub use mathlib.Core.Logic.{◌≢◌, ◌↔◌, ◌⊎◌, inl, inr}
pub use mathlib.Core.Bool.{Bool, true, false, not, ◌&&◌, ◌||◌}
pub use mathlib.Core.Option.{Option, none, some}
pub use mathlib.Core.List.{
  List, [], ◌∷◌, ◌++◌, map, reverse, append-nil, append_assoc, reverse-cons, reverse-reverse,
}
pub use native.Mathlib.Omega.{arith}
