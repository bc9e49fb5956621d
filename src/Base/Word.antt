-- ===== src/Base/Word.antt =====
-- Machine words as numbers below `2 ^ w`, with the wrap written out, and C's shifts.
use Prim.Native.Nat.{ℕ, zero, suc, ◌+◌, ◌-◌, ◌*◌, ◌/◌, ◌%◌, ◌^◌}
use mathlib.Core.Bool.{Bool}
use mathlib.Core.Option.{Option, none, some}
use kdrivers.Base.Tests.{◌==◌, ltb, leb, if◌then◌else◌}

abbrev pub u8 : ℕ → ℕ
u8 n = n % 2 ^ 8

abbrev pub u16 : ℕ → ℕ
u16 n = n % 2 ^ 16

abbrev pub u32 : ℕ → ℕ
u32 n = n % 2 ^ 32

-- `uint64_t` and `size_t`.
abbrev pub u64 : ℕ → ℕ
u64 n = n % 2 ^ 64

-- `a - b` on words below `2 ^ 32` and `2 ^ 64`.
abbrev pub sub32 : ℕ → ℕ → ℕ
sub32 a b = u32 (a + 2 ^ 32 - b)

abbrev pub sub64 : ℕ → ℕ → ℕ
sub64 a b = u64 (a + 2 ^ 64 - b)

-- The `size_t` -1.
abbrev pub minus_one : ℕ
minus_one = 2 ^ 64 - 1

-- `d > 0` for the `int64_t` whose bit pattern is `d`.
abbrev pub positive64 : ℕ → Bool
positive64 d = if leb (2 ^ 63) d then Bool.false else ltb 0 d

-- The `int` whose bit pattern is `n`, converted to `size_t`: the sign is extended.
abbrev pub sign_extend : ℕ → ℕ
sign_extend n = if leb (2 ^ 31) n then n + 2 ^ 64 - 2 ^ 32 else n

infixl 75 ◌<<◌ ◌>>>◌
abbrev pub ◌<<◌ : ℕ → ℕ → ℕ
x << k = x * 2 ^ k

abbrev pub ◌>>>◌ : ℕ → ℕ → ℕ
x >>> k = x / 2 ^ k

-- `__builtin_ffs(x) - 1` for the `int` whose bit pattern is `x`: the lowest bit that is set, of
-- the next `n` ones, `none` for the -1 of an `int` without one.
unfoldable pub lowest_bit : ℕ → ℕ → ℕ → Option ℕ
lowest_bit zero at x = none
lowest_bit (suc n) at x =
    let rest = lowest_bit n (at + 1) (x / 2) in if x % 2 == 1 then some at else rest
