-- ===== src/Common.antt =====
-- The names that the other modules share: those of the libraries, passed on, and the project's own
-- tests on numbers, lists, texts, maps and sorting.
pub mod Tests
pub mod Lists
pub mod Texts
pub mod Strings
pub mod Map
pub mod Trims
pub mod Sort
pub mod Decimal
pub mod Net
pub mod Effect
pub mod Entries
unfoldable pub use Tests.*
unfoldable pub use Lists.*
unfoldable pub use Texts.*
unfoldable pub use Strings.*
unfoldable pub use Sort.*
unfoldable pub use Decimal.*
unfoldable pub use Net.*
unfoldable pub use Map.*
unfoldable pub use Trims.*
pub use Prim.Native.Nat.{ℕ, zero, suc, ◌+◌, ◌-◌, ◌*◌, ◌/◌, ◌%◌, ◌^◌, ◌≤◌, ◌<◌}
pub use Prim.Native.String.{String}
pub use mathlib.Core.Path.{◌≡◌, refl, sym, ap, ◌∙◌, subst, fun_ext}
pub use mathlib.Core.Logic.{◌≢◌, ◌↔◌, ◌⊎◌, inl, inr}
pub use mathlib.Core.Bool.{Bool, true, false, ◌&&◌, ◌||◌, not}
pub use mathlib.Core.Option.{Option, none, some}
pub use mathlib.Core.List.{List, [], ◌∷◌, ◌++◌, map, append-nil, append_assoc}
pub use native.Mathlib.Omega.{arith}
