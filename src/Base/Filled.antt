-- ===== src/Base/Filled.antt =====
-- What a loop that fills a buffer has done to it, from one index to another.
use kdrivers.Base.Lists.{length, get_or}
use kdrivers.Base.Slices.{
  slice, blit, length-slice, length-blit, get_or-slice, get_or-blit_inside, get_or-blit_outside,
}
use Prim.Native.Nat.{ℕ, ◌+◌, ◌-◌, ◌≤◌, ◌<◌}
use mathlib.Core.Path.{◌≡◌, refl, ap, ◌∙◌}
use mathlib.Core.Logic.{◌⊎◌, inl, inr}
use mathlib.Core.List.{List}
use native.Mathlib.Omega.{arith}
use native.Mathlib.Decide.{dec_lt}

-- `after` is `buffer` with the bytes `lo` to `hi - 1` replaced by those that `byte` gives.
pub record IsFilled (byte : ℕ → ℕ) (lo hi : ℕ) (buffer after : List ℕ) : Type 0 where
  pub same_length : length after ≡ length buffer
  pub inside : (i : ℕ) → lo ≤ i → i < hi → get_or after i 0 ≡ byte i
  pub outside : (i : ℕ) → (i < lo) ⊎ (hi ≤ i) → get_or after i 0 ≡ get_or buffer i 0

pub IsFilled-refl :
    (byte : ℕ → ℕ) (lo hi : ℕ) (buffer : List ℕ) → hi ≤ lo → IsFilled byte lo hi buffer buffer
IsFilled-refl byte lo hi buffer h = record {
  same_length = refl;
  inside = λ i p q. absurd (omega arith);
  outside = λ i p. refl;
}

-- One range after another.
pub IsFilled-trans :
    {byte : ℕ → ℕ} {a b c : ℕ} {x y z : List ℕ}
    → a ≤ b
    → b ≤ c
    → IsFilled byte a b x y
    → IsFilled byte b c y z
    → IsFilled byte a c x z
IsFilled-trans {byte} {a} {b} {c} {x} {y} {z} h k f g = record {
  same_length = g.same_length ∙ f.same_length;
  inside = λ i p q. elim (dec_lt i b) [
    | yes before ↦ g.outside i (inl before) ∙ f.inside i p before
    | no after ↦ g.inside i (omega arith) q
  ];
  outside = λ i p. elim p [
    | inl before ↦ g.outside i (inl (omega arith)) ∙ f.outside i (inl before)
    | inr after ↦ g.outside i (inr after) ∙ f.outside i (inr (omega arith))
  ];
}

-- A copy of `n` bytes from `place` on, of an array whose bytes are the wanted ones there.
pub IsFilled-blit :
    (byte : ℕ → ℕ) (buffer : List ℕ) (lo : ℕ) (source : List ℕ) (place n hi : ℕ)
    → lo + n ≡ hi
    → hi ≤ length buffer
    → place + n ≤ length source
    → ((k : ℕ) → k < n → get_or source (place + k) 0 ≡ byte (lo + k))
    → IsFilled byte lo hi buffer (blit buffer lo (slice source place n))
IsFilled-blit byte buffer lo source place n hi e h k same =
    let copied = slice source place n in
    let len : length copied ≡ n = length-slice source place n k in
    record {
      same_length = length-blit buffer lo copied (omega arith);
      inside = λ i p q.
          let at : lo + (i - lo) ≡ i = omega arith in
          ap (λ (j : ℕ). get_or (blit buffer lo copied) j 0) (omega arith)
          ∙ get_or-blit_inside buffer lo copied (i - lo) 0 (omega arith) (omega arith)
          ∙ get_or-slice source place n (i - lo) 0 (omega arith)
          ∙ same (i - lo) (omega arith)
          ∙ ap byte at;
      outside = λ i p.
          get_or-blit_outside buffer lo copied i 0 (omega arith)
            (elim p [ inl before ↦ inl before | inr after ↦ inr (omega arith) ]);
    }
