-- ===== src/Base/Patch.antt =====
-- Changing a part of an array: reading it, changing it and writing it back.
use kdrivers.Base.Lists.{
  length, get_or, get_or-injective, drop, take-length, length-take, length-drop,
}
use kdrivers.Base.Slices.{
  slice, blit, length-slice, length-blit, slice-blit, get_or-slice, get_or-blit_inside,
  get_or-blit_outside,
}
use Prim.Native.Nat.{ℕ, ◌+◌, ◌-◌, ◌≤◌, ◌<◌, min}
use mathlib.Core.Path.{◌≡◌, refl, sym, ap, ◌∙◌}
use mathlib.Core.Logic.{◌⊎◌, ◌≢◌, inl, inr}
use mathlib.Core.List.{List, [], ◌∷◌}
use native.Mathlib.Omega.{arith}
use native.Mathlib.Decide.{dec_lt, dec_le}

module _ (xs : List ℕ) (place n from : ℕ) (bytes : List ℕ) (h : place + n ≤ length xs)
    (k : from + length bytes ≤ n) where
  abbrev part : List ℕ
  part = slice xs place n

  abbrev changed : List ℕ
  changed = blit part from bytes

  part_length : length part ≡ n
  part_length = length-slice xs place n h

  changed_length : length changed ≡ n
  changed_length =
      let e = length-blit part from bytes (omega (arith, part_length)) in omega (arith, part_length)

  at :
      (i j : ℕ)
      → i ≡ j
      → get_or (blit xs (place + from) bytes) i 0 ≡ get_or (blit xs (place + from) bytes) j 0
  at i j e = ap (λ (m : ℕ). get_or (blit xs (place + from) bytes) m 0) e

  kept :
      (j : ℕ)
      → j < n
      → ((j < from) ⊎ (from + length bytes ≤ j))
      → get_or changed j 0 ≡ get_or (blit xs (place + from) bytes) (place + j) 0
  kept j hj side =
      get_or-blit_outside part from bytes j 0 (omega (arith, part_length)) side
      ∙ get_or-slice xs place n j 0 hj
      ∙ sym (
          get_or-blit_outside xs (place + from) bytes (place + j) 0 (omega arith)
            (elim side [ inl before ↦ inl (omega arith) | inr after ↦ inr (omega arith) ]))

  get_or-changed :
      (j : ℕ) → j < n → get_or changed j 0 ≡ get_or (blit xs (place + from) bytes) (place + j) 0
  get_or-changed j hj = elim (dec_lt j from) [
    | yes first ↦ kept j hj (inl first)
    | no later ↦ elim (dec_lt j (from + length bytes)) [
      | yes within ↦
          ap (λ (m : ℕ). get_or changed m 0) (let e : j ≡ from + (j - from) = omega arith in e)
          ∙ get_or-blit_inside part from bytes (j - from) 0 (omega (arith, part_length))
              (omega arith)
          ∙ sym
              (get_or-blit_inside xs (place + from) bytes (j - from) 0 (omega arith) (omega arith))
          ∙ at _ _ (omega arith)
      | no last ↦ kept j hj (inr (omega arith))
    ]
  ]

  outside :
      (i : ℕ)
      → ((i < place) ⊎ (place + n ≤ i))
      → get_or (blit xs place changed) i 0 ≡ get_or (blit xs (place + from) bytes) i 0
  outside i side =
      get_or-blit_outside xs place changed i 0 (omega (arith, changed_length))
        (elim side [ inl before ↦ inl before | inr after ↦ inr (omega (arith, changed_length)) ])
      ∙ sym (
          get_or-blit_outside xs (place + from) bytes i 0 (omega arith)
            (elim side [ inl before ↦ inl (omega arith) | inr after ↦ inr (omega arith) ]))

  -- A part of an array that is read, changed and written back changes the array at that place.
  pub blit-blit_slice : blit xs place changed ≡ blit xs (place + from) bytes
  blit-blit_slice =
      let left = length-blit xs place changed (omega (arith, changed_length)) in
      let right = length-blit xs (place + from) bytes (omega arith) in
      get_or-injective _ _ (omega (arith, left, right)) (λ i hi. elim (dec_lt i place) [
        | yes before ↦ outside i (inl before)
        | no after ↦ elim (dec_lt i (place + n)) [
          | yes here ↦
              let j = i - place in
              ap (λ (m : ℕ). get_or (blit xs place changed) m 0)
                (let e : i ≡ place + j = omega arith in e)
              ∙ get_or-blit_inside xs place changed j 0 (omega arith)
                  (omega (arith, changed_length))
              ∙ get_or-changed j (omega arith)
              ∙ at _ _ (omega arith)
          | no behind ↦ outside i (inr (omega arith))
        ]
      ])

-- The part of an array beyond whose end the caller asks for.
slice_rest : (xs : List ℕ) (a n m : ℕ) → length xs ≤ a + m → m ≤ n → slice xs a n ≡ slice xs a m
slice_rest xs a n m h k =
    take-length n (drop a xs) (omega (arith, length-drop a xs))
    ∙ sym (take-length m (drop a xs) (omega (arith, length-drop a xs)))

whole_part :
    (xs : List ℕ) (a n off : ℕ) (bytes : List ℕ)
    → a + n ≤ length xs
    → off + length bytes ≤ n
    → slice (blit xs (a + off) bytes) a n ≡ blit (slice xs a n) off bytes
whole_part xs a n off bytes h k =
    let same = changed_length xs a n off bytes h k in
    ap (λ (l : List ℕ). slice l a n) (sym (blit-blit_slice xs a n off bytes h k))
    ∙ slice-blit xs a (blit (slice xs a n) off bytes) n (omega (arith, same)) same

-- Writing into an array changes a part of the array as writing into the part does.
pub slice-blit_part :
    (xs : List ℕ) (a n off : ℕ) (bytes : List ℕ)
    → off + length bytes ≤ length (slice xs a n)
    → bytes ≢ []
    → slice (blit xs (a + off) bytes) a n ≡ blit (slice xs a n) off bytes
slice-blit_part xs a n off [] h some_bytes = absurd (some_bytes refl)
slice-blit_part xs a n off (b ∷ bytes) h some_bytes =
    let ys = b ∷ bytes in
    let len : length (slice xs a n) ≡ min n (length xs - a) =
      omega (arith, length-take n (drop a xs), length-drop a xs) in
    elim (dec_le (a + n) (length xs)) [
      | yes inside ↦ whole_part xs a n off ys inside (omega arith)
      | no short ↦
          let m = length xs - a in
          let all = length-blit xs (a + off) ys (omega arith) in
          slice_rest (blit xs (a + off) ys) a n m (omega arith) (omega arith)
          ∙ whole_part xs a m off ys (omega arith) (omega arith)
          ∙ ap (λ (l : List ℕ). blit l off ys)
              (sym (slice_rest xs a n m (omega arith) (omega arith)))
    ]
