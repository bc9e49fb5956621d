-- ===== src/Base/Alloc.antt =====
-- The kernel's allocator (`alloc` of mm/allocator.h, outside the repository).
use kdrivers.Base.Lists.{length}
use Prim.Native.Nat.{ℕ, ◌-◌, ◌^◌}
use mathlib.Core.Path.{◌≡◌}
use mathlib.Core.List.{List}
use mathlib.Core.Option.{Option, some}

-- `alloc n` gives `NULL`, or `n` bytes with whatever they held.
pub record Allocator : Type 1 where
  pub World : Type 0
  pub alloc : ℕ → World → Option (List ℕ) × World
  pub alloc_length : (n : ℕ) (w : World) (m : List ℕ) → (alloc n w).0 ≡ some m → length m ≡ n

-- The `int` -n as a bit pattern.
abbrev pub neg : ℕ → ℕ
neg n = 2 ^ 32 - n
