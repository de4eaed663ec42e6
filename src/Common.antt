-- ===== src/Common.antt =====
-- Shared names: the libraries', passed on, and those of the children.
mod Tests
mod Lists
mod Slices
mod Octets
mod Loops
pub mod Process
pub mod Automata
pub mod Subprocess
pub use Tests.*
unfoldable pub use Lists.*
pub use Slices.*
pub use Octets.*
pub use Loops.*
pub use Prim.Native.Nat.{ℕ, zero, suc, ◌+◌, ◌-◌, ◌*◌, ◌/◌, ◌%◌, ◌^◌, ◌≤◌, ◌<◌, bit_and, bit_or}
pub use mathlib.Core.Path.{◌≡◌, refl, sym, ap, ◌∙◌, subst}
pub use mathlib.Core.Logic.{◌≢◌, ◌↔◌, ◌⊎◌, inl, inr}
pub use mathlib.Core.Bool.{Bool, true, false, not, ◌&&◌, ◌||◌}
pub use mathlib.Core.Option.{Option, none, some}
pub use mathlib.Core.List.{List, [], ◌∷◌, ◌++◌, map, append_assoc, append-nil}
pub use native.Mathlib.Omega.{arith}
