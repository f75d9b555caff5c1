-- ===== src/Prelude.antt =====
-- The names that the other modules share: the libraries', passed on, and those of the children.
pub mod Tests
pub mod Lists
mod Bits
mod Order
mod Wrap
mod Blocks
mod Queues
mod Slices
pub use Tests.*
pub use Lists.*
unfoldable pub use Queues.*
pub use Slices.*
pub use Wrap.*
pub use Blocks.*
pub use Bits.*
unfoldable pub use Order.{lt_wf}
pub use Prim.Native.Nat.{ℕ, zero, suc, ◌+◌, ◌-◌, ◌*◌, ◌/◌, ◌%◌, ◌^◌, ◌≤◌, ◌<◌, min, bit_and, bit_or}
pub use mathlib.Core.Path.{◌≡◌, refl, sym, ap, subst, subst₂, ◌∙◌}
pub use mathlib.Core.Logic.{◌≢◌, ◌↔◌, ◌⊎◌, inl, inr}
pub use mathlib.Core.Bool.{Bool, true, false, not, ◌&&◌, ◌||◌}
pub use mathlib.Core.Option.{Option, none, some}
pub use mathlib.Core.List.{List, [], ◌∷◌, ◌++◌, map}
pub use native.Mathlib.Omega.{arith}
