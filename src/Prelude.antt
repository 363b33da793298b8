-- ===== src/Prelude.antt =====
-- The names that the modules of the library share: the libraries' own, passed on, and those of
-- the children: tests, lists, texts as lists of bytes, and issues with the state monad.
mod Tests
mod Lists
mod Texts
mod Fields
mod Pieces
mod Int
mod Numerals
mod Issues
unfoldable pub use Tests.*
unfoldable pub use Lists.*
unfoldable pub use Texts.*
unfoldable pub use Fields.*
unfoldable pub use Pieces.*
unfoldable pub use Int.*
unfoldable pub use Numerals.*
unfoldable pub use Issues.*
pub use Prim.Native.Nat.{ℕ, zero, suc, ◌+◌, ◌-◌, ◌*◌, ◌/◌, ◌%◌, ◌^◌, ◌≤◌, ◌<◌, min}
pub use mathlib.Core.Path.{◌≡◌, refl, sym, ap, ◌∙◌}
pub use mathlib.Core.Logic.{◌≢◌, ◌↔◌, ◌⊎◌, inl, inr}
pub use mathlib.Core.Bool.{Bool, true, false, ◌&&◌, ◌||◌, not}
pub use mathlib.Core.Option.{Option, none, some}
pub use mathlib.Core.List.{List, [], ◌∷◌, ◌++◌, map, append-nil, append_assoc}
pub use native.Mathlib.Omega.{arith}
