-- ===== src/Resource/Pci.antt =====
-- src/c/resource.c: how a PCI device comes to its driver.
use kdrivers.Base.{
  ℕ, ◌^◌, ◌≤◌, ◌<◌, ◌≡◌, inl, inr, Option, none, some, Bool, ◌==◌, ◌&&◌, Outcome, done, ◌>>=◌,
  arith, Bool-cases,
}
use kdrivers.Resource.{init_resource, pci_target, internal_find_code, init_pci_resource}
use kdrivers.Resource.Search.{IsTerminated, Drives, Found, found, missing, internal_find_code-Found}
use kdrivers.Resource.Table.{Index, at, Drivers, Resource, Kernel, dev_pci}
use kdrivers.Resource.Start.{IsStarted, init_resource-at}

module _ {World State Args : Type 0} (drivers : Drivers World State Args) where
  open drivers use {
    table, entry_count, group_count, atomic_inc, atomic_inc_value, atomic_inc_counter,
  }

  done_inj :
      {r r' : Option (Resource World State Args) × Kernel World}
      → ◌≡◌ {A = Outcome (Option (Resource World State Args) × Kernel World)} (done r) (done r')
      → r ≡ r'
  done_inj e = cc

  none_ne :
      {k k' : Kernel World} {r : Resource World State Args}
      → ◌≡◌ {A = Option (Resource World State Args) × Kernel World} (none, k) (some r, k')
      → ⊥
  none_ne e = ground arith

  pci_result :
      (memory : Bool) (target : ℕ) (args : Option Args) (k k' : Kernel World)
      (r : Resource World State Args) (result : Outcome Index)
      → k.current_id < 2 ^ 64
      → Found drivers target dev_pci 0 (entry_count dev_pci) result
      → (result >>= λ index. done (init_resource drivers memory (at dev_pci) index args k))
        ≡ done (some r, k')
      → (i : ℕ) × Drives drivers target dev_pci i
        × ((j : ℕ) → 0 ≤ j → j < i → ¬ Drives drivers target dev_pci j)
        × IsStarted drivers dev_pci i args k k' r
  unfolding init_resource
  pci_result memory target args k k' r result small (found j eq _ _ drives first) e = (
    j,
    drives,
    first,
    init_resource-at drivers memory dev_pci j args k k' r small (done_inj (rw eq at e)),
  )
  pci_result memory target args k k' r result small (missing eq none_of) e =
      absurd (none_ne (done_inj (rw eq at e)))

  -- A PCI device gets a resource only from the first driver of the PCI group whose list has the
  -- device's code, and never where the device does not answer (both identifiers 0xFFFF).
  pub init_pci_resource-Started :
      (memory : Bool) (vendor device : ℕ) (args : Option Args) (k k' : Kernel World)
      (r : Resource World State Args)
      → IsTerminated drivers dev_pci
      → k.current_id < 2 ^ 64
      → init_pci_resource drivers memory vendor device args k ≡ done (some r, k')
      → ¬ ((vendor ≡ 0xffff) × (device ≡ 0xffff))
        × ((i : ℕ) × Drives drivers (pci_target vendor device) dev_pci i
            × ((j : ℕ) → 0 ≤ j → j < i → ¬ Drives drivers (pci_target vendor device) dev_pci j)
            × IsStarted drivers dev_pci i args k k' r)
  unfolding init_pci_resource
  init_pci_resource-Started memory vendor device args k k' r t small e =
      elim (Bool-cases ((vendor == 0xffff) && (device == 0xffff))) [
        | inl absent ↦ absurd (ground (arith, rw absent at e))
        | inr present ↦ (
          λ both. absurd (ground (arith, present, both.0, both.1)),
          pci_result memory (pci_target vendor device) args k k' r
              (internal_find_code drivers (pci_target vendor device) dev_pci) small
              (internal_find_code-Found drivers (pci_target vendor device) dev_pci t)
              (rw present at e),
        )
      ]
