-- ===== src/Base/Slices.antt =====
-- The effect of C's `memcpy` and `memset` on arrays, with the accesses that they make checked.
use kdrivers.Base.Tests.{leb, if◌then◌else◌}
use kdrivers.Base.Lists.{
  length, take, drop, get_or, length-append, length-take, length-drop, take-append, drop-append,
  get_or-append_left, get_or-append_right, get_or-drop, get_or-take, take-append-drop, take-take,
  drop-take, drop-drop,
}
use kdrivers.Base.Fallible.{Outcome, done, fault}
use Prim.Native.Nat.{ℕ, zero, suc, ◌+◌, ◌-◌, ◌*◌, ◌≤◌, ◌<◌}
use mathlib.Core.Path.{◌≡◌, refl, sym, ap, ◌∙◌}
use mathlib.Core.Bool.{◌&&◌}
use mathlib.Core.Logic.{◌⊎◌, ◌≢◌, inl, inr}
use mathlib.Core.List.{List, [], ◌∷◌, ◌++◌, append-nil}
use native.Mathlib.Nat.{add-zero, mul-pos}
use native.Mathlib.Omega.{arith}

-- The `n` elements from index `off` on, fewer where the array ends.
abbrev pub slice {ℓ} : {A : Type ℓ} → List A → ℕ → ℕ → List A
slice xs off n = take n (drop off xs)

-- `dst` with `bytes` written from index `off` on.
abbrev pub blit {ℓ} : {A : Type ℓ} → List A → ℕ → List A → List A
blit dst off bytes = take off dst ++ (bytes ++ drop (off + length bytes) dst)

-- `memcpy(dst + doff, src + soff, n)`: a fault where either range leaves its array.
unfoldable pub memcpy : List ℕ → ℕ → List ℕ → ℕ → ℕ → Outcome (List ℕ)
memcpy dst doff src soff n =
    if leb (doff + n) (length dst) && leb (soff + n) (length src)
    then done (blit dst doff (slice src soff n))
    else fault

module _ {ℓ} {A : Type ℓ} where
  pub length-slice : (xs : List A) (off n : ℕ) → off + n ≤ length xs → length (slice xs off n) ≡ n
  length-slice xs off n h = omega (arith, length-take n (drop off xs), length-drop off xs)

  pub length-blit :
      (dst : List A) (off : ℕ) (bytes : List A)
      → off + length bytes ≤ length dst
      → length (blit dst off bytes) ≡ length dst
  length-blit dst off bytes h = omega (
    arith,
    length-append (take off dst) (bytes ++ drop (off + length bytes) dst),
    length-append bytes (drop (off + length bytes) dst),
    length-take off dst,
    length-drop (off + length bytes) dst,
  )

  -- Moving no element changes nothing.
  pub blit-slice_zero :
      (dst : List A) (doff : ℕ) (src : List A) (off n : ℕ)
      → n ≡ 0
      → blit dst doff (slice src off n) ≡ dst
  blit-slice_zero dst doff src off n e = rw (e, add-zero) (take-append-drop doff dst)

  -- Reading back what was written.
  pub slice-blit :
      (dst : List A) (off : ℕ) (bytes : List A) (n : ℕ)
      → off + length bytes ≤ length dst
      → length bytes ≡ n
      → slice (blit dst off bytes) off n ≡ bytes
  slice-blit dst off bytes n h e =
      ap (take n) (drop-append off (take off dst) _ (omega (arith, length-take off dst)))
      ∙ take-append n bytes _ e

  drop_all : (xs : List A) (n : ℕ) → length xs ≤ n → drop n xs ≡ []
  drop_all [] zero h = refl
  drop_all [] (suc n) h = refl
  drop_all (x ∷ xs) zero h = absurd (omega arith)
  drop_all (x ∷ xs) (suc n) h = drop_all xs n (omega arith)

  -- What fills the array replaces it.
  pub blit_whole : (dst bytes : List A) → length bytes ≡ length dst → blit dst 0 bytes ≡ bytes
  blit_whole dst bytes h =
      ap (λ (l : List A). bytes ++ l) (drop_all dst (0 + length bytes) (omega arith))
      ∙ append-nil bytes

  -- Writing back what was read changes nothing.
  pub blit-slice_same :
      (xs : List A) (off n : ℕ) → off + n ≤ length xs → blit xs off (slice xs off n) ≡ xs
  blit-slice_same xs off n h =
      ap (λ (k : ℕ). take off xs ++ (take n (drop off xs) ++ drop (off + k) xs))
        (length-slice xs off n h)
      ∙ ap (λ (l : List A). take off xs ++ (take n (drop off xs) ++ l)) (sym (drop-drop n off xs))
      ∙ ap (λ (l : List A). take off xs ++ l) (take-append-drop n (drop off xs))
      ∙ take-append-drop off xs

  pub get_or-slice :
      (xs : List A) (off n i : ℕ) (d : A)
      → i < n
      → get_or (slice xs off n) i d ≡ get_or xs (off + i) d
  get_or-slice xs off n i d h = get_or-take n i (drop off xs) d h ∙ get_or-drop off i xs d

  -- What was written is there.
  pub get_or-blit_inside :
      (dst : List A) (off : ℕ) (bytes : List A) (i : ℕ) (d : A)
      → off ≤ length dst
      → i < length bytes
      → get_or (blit dst off bytes) (off + i) d ≡ get_or bytes i d
  get_or-blit_inside dst off bytes i d h k =
      get_or-append_right off i (take off dst) _ d (omega (arith, length-take off dst))
      ∙ get_or-append_left bytes _ i d k

  -- What lies outside of the written range stays.
  pub get_or-blit_outside :
      (dst : List A) (off : ℕ) (bytes : List A) (i : ℕ) (d : A)
      → off + length bytes ≤ length dst
      → (i < off) ⊎ (off + length bytes ≤ i)
      → get_or (blit dst off bytes) i d ≡ get_or dst i d
  get_or-blit_outside dst off bytes i d h (inl before) =
      get_or-append_left (take off dst) _ i d (omega (arith, length-take off dst))
      ∙ get_or-take off i dst d before
  get_or-blit_outside dst off bytes i d h (inr after) =
      ap (λ (k : ℕ). get_or (blit dst off bytes) k d) split
      ∙ get_or-append_right off (length bytes + rest) (take off dst) _ d
          (omega (arith, length-take off dst))
      ∙ get_or-append_right (length bytes) rest bytes _ d refl
      ∙ get_or-drop (off + length bytes) rest dst d
      ∙ ap (λ (k : ℕ). get_or dst k d) (sym split')
    where
      rest : ℕ
      rest = i - (off + length bytes)

      split : i ≡ off + (length bytes + rest)
      split = omega arith

      split' : i ≡ off + length bytes + rest
      split' = omega arith

pub memcpy-eq-blit :
    (dst : List ℕ) (doff : ℕ) (src : List ℕ) (soff n : ℕ)
    → doff + n ≤ length dst
    → soff + n ≤ length src
    → memcpy dst doff src soff n ≡ done (blit dst doff (slice src soff n))
unfolding memcpy
memcpy-eq-blit dst doff src soff n h k = ground arith

pub memcpy-eq-fault :
    (dst : List ℕ) (doff : ℕ) (src : List ℕ) (soff n : ℕ)
    → (length dst < doff + n) ⊎ (length src < soff + n)
    → memcpy dst doff src soff n ≡ fault
unfolding memcpy
memcpy-eq-fault dst doff src soff n (inl h) = ground arith
memcpy-eq-fault dst doff src soff n (inr h) = ground arith

-- A part of a part.
pub slice-slice {ℓ} :
    {A : Type ℓ} (xs : List A) (a len off n : ℕ)
    → off + n ≤ len
    → slice (slice xs a len) off n ≡ slice xs (a + off) n
slice-slice xs a len off n h =
    ap (take n) (drop-take off len (len - off) (drop a xs) (omega arith))
    ∙ take-take n (len - off) (drop off (drop a xs)) (omega arith)
    ∙ ap (take n) (drop-drop off a xs)

-- A transfer of some elements of some bytes.
pub mul_nonzero : (n m : ℕ) → n ≢ 0 → m ≢ 0 → n * m ≢ 0
mul_nonzero n m hn hm =
    let positive : 0 < n * m = mul-pos (omega arith) (omega arith) in omega arith
