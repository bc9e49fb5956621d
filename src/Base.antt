-- ===== src/Base.antt =====
-- What the modules of the drivers share: numbers and their tests, lists as C arrays, machine
-- words, memory accesses that may fault, and the interfaces of code outside the repository.
mod Tests
mod Lists
mod Word
mod Fallible
mod Bits
pub mod Memory
pub mod Slices
pub mod Filled
pub mod Patch
pub mod Alloc
pub mod Vfs
pub mod RamDisk
pub mod Masks
pub mod Ports
pub use Tests.*
pub use Lists.*
unfoldable pub use Word.*
pub use Bits.*
pub use Fallible.*
pub use Prim.Native.Nat.{ℕ, zero, suc, ◌+◌, ◌-◌, ◌*◌, ◌/◌, ◌%◌, ◌^◌, ◌≤◌, ◌<◌, min, bit_and, bit_or}
pub use mathlib.Core.Path.{◌≡◌, refl, sym, ap, ap₂, ◌∙◌}
pub use mathlib.Core.Logic.{◌≢◌, ◌↔◌, ◌⊎◌, inl, inr}
pub use mathlib.Core.Bool.{Bool, true, false, not, ◌&&◌, ◌||◌}
pub use mathlib.Core.Option.{Option, none, some}
pub use mathlib.Core.List.{List, [], ◌∷◌, ◌++◌, map}
pub use native.Mathlib.Omega.{arith}
