-- ===== src/Platform/Pci.antt =====
-- src/c/resource.c with src/c/sysdev/nvme/pci.c: which PCI devices get a driver.
use kdrivers.Base.{ℕ, ◌^◌, ◌<◌, ◌≡◌, ◌≢◌, refl, sym, ◌∙◌, Option, some, Bool, done, arith}
use kdrivers.Nvme.PciFunctions.{pci_codes}
use kdrivers.Resource.{pci_target, init_pci_resource}
use kdrivers.Resource.Codes.{
  HasCode, NoCodes, Drives-HasCode, HasCode-Terminated, NoCodes-Terminated, NoCodes-Drives,
}
use kdrivers.Resource.Pci.{init_pci_resource-Started}
use kdrivers.Resource.Search.{Drives, IsTerminated, pci_target_injective}
use kdrivers.Resource.Start.{IsStarted}
use kdrivers.Resource.Table.{DriverDef, Drivers, Resource, Kernel, dev_pci}
use mathlib.Core.Path.{subst}
use native.Mathlib.Decide.{ℕ_discrete}

module _ {World State Args : Type 0} (drivers : Drivers World State Args) where
  -- The PCI group of the table has the entry of the NVMe driver, and no other that has codes.
  pub record IsPciTable : Type 0 where
    pub nvme_at : ℕ
    pub driver : DriverDef World State Args
    pub has_nvme : drivers.table dev_pci nvme_at ≡ some driver
    pub nvme_codes : driver.codes ≡ some (pci_codes drivers.terminator)
    pub others : (i : ℕ) → i ≢ nvme_at → NoCodes drivers dev_pci i

  module _ (pci : IsPciTable) where
    open pci use {nvme_at}

    nvme_code_at : HasCode drivers dev_pci nvme_at 0x1b360010
    unfolding pci_codes
    nvme_code_at = (pci.driver, pci.has_nvme, pci.nvme_codes)

    terminated : IsTerminated drivers dev_pci
    terminated i = elim (ℕ_discrete i nvme_at) [
      | yes e ↦ rw e (HasCode-Terminated drivers dev_pci nvme_at 0x1b360010 nvme_code_at)
      | no ne ↦ NoCodes-Terminated drivers dev_pci i (pci.others i ne)
    ]

    nvme_only :
        (target i : ℕ) → Drives drivers target dev_pci i → (i ≡ nvme_at) × (0x1b360010 ≡ target)
    nvme_only target i d = elim (ℕ_discrete i nvme_at) [
      | yes e ↦ (
        e,
        Drives-HasCode drivers dev_pci nvme_at 0x1b360010 target nvme_code_at
            (subst (Drives drivers target dev_pci) e d),
      )
      | no ne ↦ absurd (NoCodes-Drives drivers dev_pci i target (pci.others i ne) d)
    ]

    nvme_target : 0x1b360010 ≡ pci_target 0x1b36 0x0010
    unfolding pci_target
    nvme_target = refl

    -- The NVMe driver is the only one that a PCI device gets, and only a device with the vendor
    -- 0x1B36 and the device 0x0010 gets it, whatever 16-bit identifiers it has. The resource is the one that the driver's entry starts.
    pub init_pci_resource-nvme :
        (memory : Bool) (vendor device : ℕ) (args : Option Args) (k k' : Kernel World)
        (r : Resource World State Args)
        → vendor < 2 ^ 16
        → device < 2 ^ 16
        → k.current_id < 2 ^ 64
        → init_pci_resource drivers memory vendor device args k ≡ done (some r, k')
        → (vendor ≡ 0x1b36) × (device ≡ 0x0010) × IsStarted drivers dev_pci nvme_at args k k' r
    init_pci_resource-nvme memory vendor device args k k' r hv hd small e =
        let started =
          init_pci_resource-Started drivers memory vendor device args k k' r terminated small e in
        let entry = started.1 in
        let only = nvme_only (pci_target vendor device) entry.0 entry.1 in
        let ids =
          pci_target_injective vendor device 0x1b36 0x0010 hv hd (omega arith) (omega arith)
            (sym only.1 ∙ nvme_target) in
        (ids.0, ids.1, subst (λ (i : ℕ). IsStarted drivers dev_pci i args k k' r) only.0 entry.3)
