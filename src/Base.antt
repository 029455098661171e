-- ===== src/Base.antt =====
-- What the other modules share: the libraries' names, passed on, and those of the children:
-- Boolean tests (Tests), lists (Lists), equality of keys (Keys), association lists for Python's
-- dictionaries (Dict), text as code points (Strings) and effects with exceptions (Effects), decimal numerals (Decimal).
mod Tests
mod Lists
mod Keys
pub mod Dict
mod Strings
mod Decimal
mod Effects
pub use Tests.*
pub use Lists.*
pub use Keys.*
unfoldable pub use Strings.*
unfoldable pub use Decimal.*
pub use Effects.*
pub use Prim.Native.Nat.{ℕ, zero, suc, ◌+◌, ◌-◌, ◌*◌, ◌/◌, ◌%◌, ◌≤◌, ◌<◌}
pub use mathlib.Core.Path.{◌≡◌, refl, sym, ap, ap₂, ◌∙◌, subst, ◌≡⟨◌⟩◌, ◌∎}
pub use mathlib.Core.Logic.{◌≢◌, ◌↔◌, ◌⊎◌, inl, inr}
pub use mathlib.Core.Bool.{Bool, true, false, not, ◌&&◌, ◌||◌}
pub use mathlib.Core.Option.{Option, none, some}
pub use mathlib.Core.List.{List, [], ◌∷◌, ◌++◌, map, append-nil, append_assoc}
pub use native.Mathlib.Omega.{arith}
