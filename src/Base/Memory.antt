-- ===== src/Base/Memory.antt =====
-- Loads from memory, a list of bytes, and C strings in it. The words are little-endian, as on the
-- x86-64 machines that the kernel runs on. A load out of range is a fault.
use kdrivers.Base.Tests.{◌==◌, if◌then◌else◌}
use kdrivers.Base.Lists.{get_elem?, length}
use kdrivers.Base.Fallible.{Outcome, done, fault, ◌>>=◌}
use Prim.Native.Nat.{ℕ, zero, suc, ◌+◌, ◌*◌, ◌^◌}
use mathlib.Core.Bool.{Bool, true, false}
use mathlib.Core.List.{List, [], ◌∷◌, ◌++◌}
use mathlib.Core.Path.{◌≡◌, refl, ap}
use native.Mathlib.Omega.{arith}
use mathlib.Core.Option.{Option, none, some}

abbrev pub loaded {ℓ} : {A : Type ℓ} → Option A → Outcome A
loaded none = fault
loaded (some x) = done x

unfoldable pub load8 : List ℕ → ℕ → Outcome ℕ
load8 memory p = loaded (get_elem? memory p)

unfoldable pub load16 : List ℕ → ℕ → Outcome ℕ
unfolding load8
load16 memory p = do lo ← load8 memory p; hi ← load8 memory (p + 1); done (lo + hi * 256)

unfoldable pub load32 : List ℕ → ℕ → Outcome ℕ
load32 memory p = do lo ← load16 memory p; hi ← load16 memory (p + 2); done (lo + hi * 65536)

-- A 64-bit word of memory.
unfoldable pub load64 : List ℕ → ℕ → Outcome ℕ
unfolding load32
load64 memory p = do lo ← load32 memory p; hi ← load32 memory (p + 4); done (lo + hi * 2 ^ 32)

module _ {ℓ} {A : Type ℓ} where
  pub get_elem?-skip :
      (p i : ℕ) (xs ys : List A) → p ≡ length xs + i → get_elem? (xs ++ ys) p ≡ get_elem? ys i
  get_elem?-skip p i [] ys e = ap (get_elem? ys) e'
    where
      e' : p ≡ i
      e' = omega arith
  get_elem?-skip zero i (x ∷ xs) ys e = absurd (omega arith)
  get_elem?-skip (suc p) i (x ∷ xs) ys e = get_elem?-skip p i xs ys (omega arith)

-- A word loaded behind `xs` is a word of what begins there.
pub load16-skip : (p i : ℕ) (xs ys : List ℕ) → p ≡ length xs + i → load16 (xs ++ ys) p ≡ load16 ys i
unfolding load16 load8
load16-skip p i xs ys e =
    rw (get_elem?-skip p i xs ys e, get_elem?-skip (p + 1) (i + 1) xs ys (omega arith))

pub load8-skip : (p i : ℕ) (xs ys : List ℕ) → p ≡ length xs + i → load8 (xs ++ ys) p ≡ load8 ys i
unfolding load8
load8-skip p i xs ys e = rw (get_elem?-skip p i xs ys e) refl

-- `strncmp(p, s, n) == 0`, for the bytes from `p` on and a string `s` of characters other than
-- NUL, whose end is the end of the list.
unfoldable pub strncmp_eq : ℕ → List ℕ → List ℕ → Outcome Bool
strncmp_eq zero bytes s = done true
strncmp_eq (suc n) [] s = fault
strncmp_eq (suc n) (c ∷ bytes) [] = done (c == 0)
strncmp_eq (suc n) (c ∷ bytes) (d ∷ s) =
    let rest = strncmp_eq n bytes s in
    if c == d then (if c == 0 then done true else rest) else done false
