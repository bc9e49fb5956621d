-- ===== src/Base/Bits.antt =====
-- `|` and `&` on numbers, where the code uses them on separate bit fields and on the lowest bit.
use Prim.Native.Nat.{
  ℕ, zero, suc, ◌+◌, ◌*◌, ◌/◌, ◌%◌, ◌^◌, ◌≤◌, ◌<◌, min, max, bit_and, bit_or, digits,
  bit_and-bitwise, bit_or-bitwise,
}
use mathlib.Core.Path.{◌≡◌, refl, ap, ◌∙◌}
use native.Mathlib.Nat.{pow-suc}
use native.Mathlib.Omega.{arith}

-- The native operations are recursions on binary digits with a count of digits to go; a larger
-- count changes nothing.
module _ (last : ℕ → ℕ) (digit : ℕ → ℕ → ℕ) where
  digits_count : (a b j k : ℕ) → a ≤ j → a ≤ k → digits last digit j a b ≡ digits last digit k a b
  digits_count zero b zero zero p q = refl
  digits_count zero b zero (suc k) p q = refl
  digits_count zero b (suc j) zero p q = refl
  digits_count zero b (suc j) (suc k) p q = refl
  digits_count (suc a) b zero k p q = absurd (omega arith)
  digits_count (suc a) b (suc j) zero p q = absurd (omega arith)
  digits_count (suc a) b (suc j) (suc k) p q =
      ap (λ (t : ℕ). t * 2 + digit (suc a % 2) (b % 2))
        (digits_count (suc a / 2) (b / 2) j k (omega arith) (omega arith))

or_digits : (a b : ℕ) → bit_or a b ≡ digits (λ y. y) max a a b
or_digits a b = bit_or-bitwise a b

and_digits : (a b : ℕ) → bit_and a b ≡ digits (λ y. 0) min a a b
and_digits a b = bit_and-bitwise a b

-- One digit of `|`.
or_halves : (a b : ℕ) → bit_or a b ≡ bit_or (a / 2) (b / 2) * 2 + max (a % 2) (b % 2)
or_halves zero b = omega (arith, or_digits 0 b, or_digits 0 (b / 2))
or_halves (suc a) b = omega (
  arith,
  or_digits (suc a) b,
  or_digits (suc a / 2) (b / 2),
  digits_count (λ y. y) max (suc a / 2) (b / 2) a (suc a / 2) (omega arith) (omega arith),
)

-- One digit of `&`.
and_halves : (a b : ℕ) → bit_and a b ≡ bit_and (a / 2) (b / 2) * 2 + min (a % 2) (b % 2)
and_halves zero b = omega (arith, and_digits 0 b, and_digits 0 (b / 2))
and_halves (suc a) b = omega (
  arith,
  and_digits (suc a) b,
  and_digits (suc a / 2) (b / 2),
  digits_count (λ y. 0) min (suc a / 2) (b / 2) a (suc a / 2) (omega arith) (omega arith),
)

and_nothing : (bound a : ℕ) → a ≤ bound → bit_and a 0 ≡ 0
and_nothing zero zero h = refl
and_nothing zero (suc a) h = absurd (omega arith)
and_nothing (suc bound) zero h = refl
and_nothing (suc bound) (suc a) h =
    omega (arith, and_halves (suc a) 0, and_nothing bound (suc a / 2) (omega arith))

-- The lowest bit is the remainder by 2.
pub bit_and-one : (a : ℕ) → bit_and a 1 ≡ a % 2
bit_and-one a = omega (arith, and_halves a 1, and_nothing (a / 2) (a / 2) (omega arith))

or_nothing : (bound a : ℕ) → a ≤ bound → bit_or a 0 ≡ a
or_nothing zero zero h = refl
or_nothing zero (suc a) h = absurd (omega arith)
or_nothing (suc bound) zero h = refl
or_nothing (suc bound) (suc a) h =
    omega (arith, or_halves (suc a) 0, or_nothing bound (suc a / 2) (omega arith))

-- A high field and a low field that do not meet add up.
pub bit_or-fields : (k hi lo : ℕ) → lo < 2 ^ k → bit_or (hi * 2 ^ k) lo ≡ hi * 2 ^ k + lo
bit_or-fields zero hi lo h =
    rw (no_bits lo h) (or_nothing (hi * 2 ^ 0) (hi * 2 ^ 0) (omega arith) ∙ omega arith)
  where
    no_bits : (x : ℕ) → x < 2 ^ 0 → x ≡ 0
    no_bits x p = omega arith
bit_or-fields (suc k) hi lo h = omega (
  arith,
  or_halves (hi * 2 ^ suc k) lo,
  doubled,
  pow-suc 2 k,
  half,
  bit_or-fields k hi (lo / 2) (omega (arith, pow-suc 2 k)),
)
  where
    doubled : hi * 2 ^ suc k ≡ 2 * (hi * 2 ^ k)
    doubled = omega (arith, ap (λ (t : ℕ). hi * t) (pow-suc 2 k))

    half : bit_or (hi * 2 ^ suc k / 2) (lo / 2) ≡ bit_or (hi * 2 ^ k) (lo / 2)
    half = ap (λ (t : ℕ). bit_or t (lo / 2)) (omega (arith, doubled))

-- A mask of ones, by one more digit at a time.
more_ones :
    (ones a : ℕ)
    → bit_and (a / 2) ones ≡ a / 2 % (ones + 1)
    → bit_and a (ones * 2 + 1) ≡ a / 2 % (ones + 1) * 2 + a % 2
more_ones ones a h = omega (arith, and_halves a (ones * 2 + 1), halved)
  where
    halved : bit_and (a / 2) ((ones * 2 + 1) / 2) ≡ a / 2 % (ones + 1)
    halved = ap (λ (t : ℕ). bit_and (a / 2) t) (omega arith) ∙ h

and_3 : (a : ℕ) → bit_and a 3 ≡ a % 4
and_3 a = more_ones 1 a (bit_and-one (a / 2)) ∙ omega arith

and_7 : (a : ℕ) → bit_and a 7 ≡ a % 8
and_7 a = more_ones 3 a (and_3 (a / 2)) ∙ omega arith

and_15 : (a : ℕ) → bit_and a 15 ≡ a % 16
and_15 a = more_ones 7 a (and_7 (a / 2)) ∙ omega arith

and_31 : (a : ℕ) → bit_and a 31 ≡ a % 32
and_31 a = more_ones 15 a (and_15 (a / 2)) ∙ omega arith

-- A mask of six ones is the remainder by 64.
pub bit_and-mask6 : (a : ℕ) → bit_and a 63 ≡ a % 64
bit_and-mask6 a = more_ones 31 a (and_31 (a / 2)) ∙ omega arith

and_127 : (a : ℕ) → bit_and a 127 ≡ a % 128
and_127 a = more_ones 63 a (bit_and-mask6 (a / 2)) ∙ omega arith

-- A mask of eight ones is the remainder by 256.
pub bit_and-mask8 : (a : ℕ) → bit_and a 0xff ≡ a % 256
bit_and-mask8 a = more_ones 127 a (and_127 (a / 2)) ∙ omega arith
