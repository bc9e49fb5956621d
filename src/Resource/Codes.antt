-- ===== src/Resource/Codes.antt =====
-- src/c/resource.c: entries of the driver table that have one code, as those of the repository's
-- drivers, or none.
use kdrivers.Base.{ℕ, ◌≡◌, ◌≢◌, inl, inr, refl, sym, Option, none, some, List, [], ◌∷◌}
use kdrivers.Resource.Search.{Listed, Terminated, OnCodes, CodesOf, Drives}
use kdrivers.Resource.Table.{DriverDef, Drivers}
use mathlib.Core.Path.{subst}

module _ {World State Args : Type 0} (drivers : Drivers World State Args) (group i : ℕ) where
  open drivers use {table, terminator}

  abbrev pub HasCode : ℕ → Type 0
  HasCode code =
      (def : DriverDef World State Args) × (table group i ≡ some def)
      × (def.codes ≡ some (code ∷ terminator ∷ []))

  abbrev pub NoCodes : Type 0
  NoCodes = CodesOf drivers (λ (codes : List ℕ). ⊥) (Unit {0}) (table group i)

  listed_only : (target code : ℕ) → Listed drivers target (code ∷ terminator ∷ []) → code ≡ target
  listed_only target code (apart, inl e) = e
  listed_only target code (apart, inr rest) = absurd (rest.0 refl)

  -- An entry of one code drives the devices of that code only.
  pub Drives-HasCode :
      (code target : ℕ) → HasCode code → Drives drivers target group i → code ≡ target
  Drives-HasCode code target (def, e, c) d = listed_only target code (
      subst (OnCodes drivers (Listed drivers target) ⊥) c
        (subst (CodesOf drivers (Listed drivers target) ⊥) e d))

  pub drives : (code : ℕ) → HasCode code → code ≢ terminator → Drives drivers code group i
  drives code (def, e, c) apart =
      subst (CodesOf drivers (Listed drivers code) ⊥) (sym e)
        (subst (OnCodes drivers (Listed drivers code) ⊥) (sym c) (apart, inl refl))

  pub HasCode-Terminated :
      (code : ℕ) → HasCode code → CodesOf drivers (Terminated drivers) (Unit {0}) (table group i)
  HasCode-Terminated code (def, e, c) =
      subst (CodesOf drivers (Terminated drivers) (Unit {0})) (sym e)
        (subst (OnCodes drivers (Terminated drivers) (Unit {0})) (sym c) (inr (inl refl)))

  no_list :
      (P : List ℕ → Type 0) (codes : Option (List ℕ))
      → OnCodes drivers (λ (l : List ℕ). ⊥) (Unit {0}) codes
      → OnCodes drivers P (Unit {0}) codes × ¬ OnCodes drivers P ⊥ codes
  no_list P none h = (tt, λ d. d)
  no_list P (some codes) h = absurd h

  no_entry :
      (P : List ℕ → Type 0) (entry : Option (DriverDef World State Args))
      → CodesOf drivers (λ (l : List ℕ). ⊥) (Unit {0}) entry
      → CodesOf drivers P (Unit {0}) entry × ¬ CodesOf drivers P ⊥ entry
  no_entry P none h = (tt, λ d. d)
  no_entry P (some def) h = no_list P def.codes h

  pub NoCodes-Terminated : NoCodes → CodesOf drivers (Terminated drivers) (Unit {0}) (table group i)
  NoCodes-Terminated h = (no_entry (Terminated drivers) (table group i) h).0

  pub NoCodes-Drives : (target : ℕ) → NoCodes → ¬ Drives drivers target group i
  NoCodes-Drives target h = (no_entry (Listed drivers target) (table group i) h).1
