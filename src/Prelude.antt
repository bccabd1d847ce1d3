-- ===== src/Prelude.antt =====
-- The names that the other modules share: the library's, passed on, and the helpers of the
-- children: tests and lists over the native numbers, Python's sets and dictionaries of ids, and
-- fallible loops.
mod Tests
mod Lists
mod Sets
mod Dicts
mod Fallible
mod Loops
pub use Tests.*
pub use Lists.*
unfoldable pub use Sets.*
unfoldable pub use Dicts.*
pub use Fallible.*
unfoldable pub use Loops.*
pub use Prim.Native.Nat.{ℕ, zero, suc, ◌+◌, ◌-◌, ◌^◌, ◌≤◌, ◌<◌, max}
pub use Prim.Native.String.{String}
pub use mathlib.Core.Path.{◌≡◌, refl, sym, ap, ◌∙◌, subst}
pub use mathlib.Core.Logic.{◌≢◌, ◌↔◌, ◌⊎◌, inl, inr}
pub use mathlib.Core.Bool.{Bool, true, false, not, ◌&&◌, ◌||◌}
pub use mathlib.Core.Option.{Option, none, some, some-injective}
pub use mathlib.Core.List.{List, [], ◌∷◌, ◌++◌, map}
pub use native.Mathlib.Omega.{arith}
