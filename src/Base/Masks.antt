-- ===== src/Base/Masks.antt =====
-- MASKED_READ and MASKED_WRITE (lib/util.h, outside the repository): a bit field of a word.
use Prim.Native.Nat.{ℕ, ◌+◌, ◌-◌, ◌*◌, ◌/◌, ◌%◌, ◌^◌}
use mathlib.Core.Path.{◌≡◌, refl}
use native.Mathlib.Nat.{one-le-pow}
use native.Mathlib.Omega.{arith}

-- `masked_read value shift mask`, and what `masked_write value new shift mask` leaves in `value`.
-- The laws speak of masks of `k` ones, the only ones that the drivers use.
pub record Masks : Type 0 where
  pub masked_read : ℕ → ℕ → ℕ → ℕ
  pub masked_write : ℕ → ℕ → ℕ → ℕ → ℕ
  pub read_field :
      (value shift k : ℕ) → masked_read value shift (2 ^ k - 1) ≡ value / 2 ^ shift % 2 ^ k
  pub write_field :
      (value new shift k : ℕ)
      → masked_write value new shift (2 ^ k - 1)
        ≡ value / 2 ^ shift / 2 ^ k * 2 ^ k * 2 ^ shift
          + new % 2 ^ k * 2 ^ shift
          + value % 2 ^ shift

-- The laws hold of the plain reading of such a mask.
one_more : (k : ℕ) → 2 ^ k - 1 + 1 ≡ 2 ^ k
one_more k = omega (arith, one-le-pow k 2)

pub plain_read :
    (value shift k : ℕ) → value / 2 ^ shift % (2 ^ k - 1 + 1) ≡ value / 2 ^ shift % 2 ^ k
plain_read value shift k = rw (one_more k) refl

pub plain_write :
    (value new shift k : ℕ)
    → value / 2 ^ shift / (2 ^ k - 1 + 1) * (2 ^ k - 1 + 1) * 2 ^ shift
        + new % (2 ^ k - 1 + 1) * 2 ^ shift
        + value % 2 ^ shift
      ≡ value / 2 ^ shift / 2 ^ k * 2 ^ k * 2 ^ shift + new % 2 ^ k * 2 ^ shift + value % 2 ^ shift
plain_write value new shift k = rw (one_more k) refl

abbrev pub plain_masks : Masks
plain_masks = record {
  masked_read = λ value shift mask. value / 2 ^ shift % (mask + 1);
  masked_write = λ value new shift mask.
      value / 2 ^ shift / (mask + 1) * (mask + 1) * 2 ^ shift
      + new % (mask + 1) * 2 ^ shift
      + value % 2 ^ shift;
  read_field = plain_read;
  write_field = plain_write;
}
