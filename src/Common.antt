-- ===== src/Common.antt =====
-- Names shared by every module of this library: those of the libraries, passed on, and the
-- children's tests, list functions, texts and results.
mod Tests
mod Lists
mod Results
mod Texts
mod Ints
mod Sorts
unfoldable pub use Tests.*
unfoldable pub use Lists.*
unfoldable pub use Results.*
unfoldable pub use Ints.*
unfoldable pub use Sorts.*
unfoldable pub use Texts.*
pub use Prim.Native.Nat.{ℕ, zero, suc, ◌+◌, ◌-◌, ◌*◌, ◌/◌, ◌%◌, ◌^◌, ◌≤◌, ◌<◌}
pub use Prim.Native.String.{String}
pub use Prim.Native.String.{◌++◌ as concat}
pub use mathlib.Core.Path.{◌≡◌, refl, sym, ap, ◌∙◌, subst}
pub use mathlib.Core.Logic.{◌≢◌, ◌↔◌, ◌⊎◌, inl, inr}
pub use mathlib.Core.Bool.{Bool, true, false, not, ◌&&◌, ◌||◌}
pub use mathlib.Core.Option.{Option, none, some}
pub use mathlib.Core.List.{
  List, [], ◌∷◌, ◌++◌, map, reverse, Memᴰ, append-nil, append_assoc, reverse-append, reverse-cons,
  reverse-reverse,
}
pub use native.Mathlib.Omega.{arith}
pub use text.Mathlib.Text.{◌==◌ as str_eq}
pub use text.Mathlib.TextEquality.{eq_iff}
