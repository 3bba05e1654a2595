-- ===== src/Base.antt =====
-- Names that the other modules share: the library's, passed on, tests on native numbers, arrays as
-- lists, bytes and words of C, runs that may fault, and heaps of objects.
mod Tests
mod Lists
mod Words
mod Command
mod Memory
mod Buffer
mod Text
mod Bits
pub use Tests.*
pub use Lists.*
pub use Words.*
unfoldable pub use Command.*
unfoldable pub use Memory.*
unfoldable pub use Buffer.*
unfoldable pub use Text.*
pub use Bits.*
pub use Prim.Native.Nat.{ℕ, zero, suc, ◌+◌, ◌-◌, ◌*◌, ◌/◌, ◌%◌, ◌^◌, ◌≤◌, ◌<◌, min}
pub use Prim.Native.Nat.{bit_and, bit_or, bit_xor}
pub use mathlib.Core.Path.{◌≡◌, refl, sym, ap, ◌∙◌}
pub use mathlib.Core.Logic.{◌≢◌, ◌↔◌, ◌⊎◌, inl, inr}
pub use mathlib.Core.Bool.{Bool, true, false, not, ◌&&◌, ◌||◌}
pub use mathlib.Core.Option.{Option, none, some}
pub use mathlib.Core.List.{List, [], ◌∷◌, ◌++◌, map, append-nil, append_assoc}
pub use native.Mathlib.Omega.{arith}
