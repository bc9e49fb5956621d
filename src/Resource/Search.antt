-- ===== src/Resource/Search.antt =====
-- src/c/resource.c: which driver a device's code finds.
use kdrivers.Base.{
  ℕ, zero, suc, ◌+◌, ◌^◌, ◌≤◌, ◌<◌, ◌≡◌, ◌≢◌, ◌⊎◌, inl, inr, refl, sym, Option, none, some, true,
  false, List, [], ◌∷◌, bit_or-fields, Outcome, done, arith, ==_true, ==_false,
}
use mathlib.Core.Path.{subst}
use native.Mathlib.Decide.{ℕ_discrete}
use kdrivers.Resource.{
  pci_target, has_code, codes_have, entry_has_code, find_from, internal_find_code,
}
use kdrivers.Resource.Table.{Index, at, minus, DriverDef, Drivers}

-- The target of a PCI device tells its vendor and its device apart.
pub pci_target_injective :
    (vendor device vendor' device' : ℕ)
    → vendor < 2 ^ 16
    → device < 2 ^ 16
    → vendor' < 2 ^ 16
    → device' < 2 ^ 16
    → pci_target vendor device ≡ pci_target vendor' device'
    → (vendor ≡ vendor') × (device ≡ device')
unfolding pci_target
pci_target_injective vendor device vendor' device' hv hd hv' hd' e =
    ground (arith, bit_or-fields 16 vendor device, bit_or-fields 16 vendor' device')

module _ {World State Args : Type 0} (drivers : Drivers World State Args) where
  open drivers use {table, entry_count, terminator}

  -- `target` stands in a list of codes before the terminator.
  abbrev pub Listed : ℕ → List ℕ → Type 0
  Listed target [] = ⊥
  Listed target (c ∷ codes) = (c ≢ terminator) × ((c ≡ target) ⊎ Listed target codes)

  abbrev pub Terminated : List ℕ → Type 0
  Terminated [] = ⊥
  Terminated (c ∷ codes) = (c ≡ terminator) ⊎ Terminated codes

  abbrev pub OnCodes : (List ℕ → Type 0) → Type 0 → Option (List ℕ) → Type 0
  OnCodes P absent none = absent
  OnCodes P absent (some codes) = P codes

  abbrev pub CodesOf : (List ℕ → Type 0) → Type 0 → Option (DriverDef World State Args) → Type 0
  CodesOf P absent none = absent
  CodesOf P absent (some def) = OnCodes P absent def.codes

  -- A table entry drives the devices whose code its list has.
  abbrev pub Drives : ℕ → ℕ → ℕ → Type 0
  Drives target group i = CodesOf (Listed target) ⊥ (table group i)

  -- Every list of codes of a group has its terminator.
  abbrev pub IsTerminated : ℕ → Type 0
  IsTerminated group = (i : ℕ) → CodesOf Terminated (Unit {0}) (table group i)

  has_code-decides :
      (target : ℕ) (codes : List ℕ)
      → Terminated codes
      → ((has_code drivers target codes ≡ done true) × Listed target codes)
        ⊎ ((has_code drivers target codes ≡ done false) × ¬ Listed target codes)
  unfolding has_code
  has_code-decides target [] h = absurd h
  has_code-decides target (c ∷ codes) h = elim (ℕ_discrete c terminator) [
    | yes e ↦ inr (rw (==_true c terminator e) refl, λ l. l.0 e)
    | no ne ↦ elim (ℕ_discrete c target) [
      | yes e ↦ inl (rw (==_false c terminator ne, ==_true c target e) refl, (ne, inl e))
      | no ne' ↦
          elim (has_code-decides target codes (elim h [ inl e ↦ absurd (ne e) | inr t ↦ t ])) [
            | inl found ↦
                inl
                  (rw (==_false c terminator ne, ==_false c target ne') found.0, (ne, inr found.1))
            | inr missing ↦ inr (
              rw (==_false c terminator ne, ==_false c target ne') missing.0,
              λ l. elim l.1 [ inl e ↦ ne' e | inr t ↦ missing.1 t ],
            )
          ]
    ]
  ]

  codes_decide :
      (target : ℕ) (codes : Option (List ℕ))
      → OnCodes Terminated (Unit {0}) codes
      → ((codes_have drivers target codes ≡ done true) × OnCodes (Listed target) ⊥ codes)
        ⊎ ((codes_have drivers target codes ≡ done false) × ¬ OnCodes (Listed target) ⊥ codes)
  unfolding codes_have
  codes_decide target none h = inr (refl, λ l. l)
  codes_decide target (some codes) h = has_code-decides target codes h

  entry_decides :
      (target : ℕ) (entry : Option (DriverDef World State Args))
      → CodesOf Terminated (Unit {0}) entry
      → ((entry_has_code drivers target entry ≡ done true) × CodesOf (Listed target) ⊥ entry)
        ⊎ ((entry_has_code drivers target entry ≡ done false) × ¬ CodesOf (Listed target) ⊥ entry)
  unfolding entry_has_code
  entry_decides target none h = inr (refl, λ l. l)
  entry_decides target (some def) h = codes_decide target def.codes h

  -- The outcome of a search of the entries from `i` to `end - 1`.
  pub data Found (target group i end : ℕ) (result : Outcome Index) : Type 0 where
    found :
        (j : ℕ)
        → result ≡ done (at j)
        → i ≤ j
        → j < end
        → Drives target group j
        → ((k : ℕ) → i ≤ k → k < j → ¬ Drives target group k)
        → Found target group i end result
    missing :
        result ≡ done (minus 0)
        → ((k : ℕ) → i ≤ k → k < end → ¬ Drives target group k)
        → Found target group i end result

  not_from :
      (target group i end : ℕ)
      → ¬ Drives target group i
      → ((k : ℕ) → i + 1 ≤ k → k < end → ¬ Drives target group k)
      → (k : ℕ) → i ≤ k
      → k < end
      → ¬ Drives target group k
  not_from target group i end miss later k p q d = elim (ℕ_discrete i k) [
    | yes e ↦ miss (subst (Drives target group) (sym e) d)
    | no ne ↦ later k (omega arith) q d
  ]

  Found-later :
      (target group i end : ℕ) (result : Outcome Index)
      → ¬ Drives target group i
      → Found target group (i + 1) end result
      → Found target group i end result
  Found-later target group i end result miss (found j e p q d first) =
      found j e (omega arith) q d (not_from target group i j miss first)
  Found-later target group i end result miss (missing e none_of) =
      missing e (not_from target group i end miss none_of)

  find_from-Found :
      (left target group i end : ℕ)
      → IsTerminated group
      → i + left ≡ end
      → Found target group i end (find_from drivers left target group i)
  unfolding find_from
  find_from-Found zero target group i end t e = missing refl (λ k p q. absurd (omega arith))
  find_from-Found (suc left) target group i end t e =
      elim (entry_decides target (table group i) (t i)) [
        | inl hit ↦
            found i (rw hit.0 refl) (omega arith) (omega arith) hit.1
              (λ k p q. absurd (omega arith))
        | inr miss ↦ subst (Found target group i end) (sym (rw miss.0 refl)) (
            Found-later target group i end _ miss.1
              (find_from-Found left target group (i + 1) end t (omega arith)))
      ]

-- A search of the driver table for a code gives the first entry of the group whose list has the
-- code before its terminator, and -1 exactly if there is none. It overruns no list.
pub internal_find_code-Found :
    {World State Args : Type 0} (drivers : Drivers World State Args) (target group : ℕ)
    → IsTerminated drivers group
    → Found drivers target group 0
        (drivers.entry_count group)
        (internal_find_code drivers target group)
unfolding internal_find_code
internal_find_code-Found drivers target group t =
    find_from-Found drivers (drivers.entry_count group) target group 0 (drivers.entry_count group) t
      (omega arith)
