-- ===== src/Resource/Examples.antt =====
-- src/c/resource.c: the results at a small table of drivers, and runs of the functions.
use kdrivers.Base.{
  ℕ, zero, suc, ◌+◌, ◌≤◌, ◌<◌, ◌≡◌, ◌↔◌, inl, inr, refl, ap, ◌∙◌, Option, none, some, true, [], ◌∷◌,
  u64, done, arith,
}
use kdrivers.Resource.{pci_target, internal_find_code, init_resource, init_pci_resource}
use kdrivers.Resource.Search.{IsTerminated, Drives, Found, internal_find_code-Found}
use kdrivers.Resource.Start.{IsStarted, init_resource-IsStarted}
use kdrivers.Resource.Ids.{KeepsIds, Calls, stop, started, Ascending, Calls-Ascending}
use kdrivers.Resource.Pci.{init_pci_resource-Started}
use kdrivers.Resource.Table.{at, DriverDef, Drivers, Resource, Kernel, dev_pci}

-- The driver counts how often it was started, keeps what it was given, and takes an id itself, as
-- one that starts a resource does.
abbrev ok_init : Option ℕ → Kernel ℕ → ℕ × Option ℕ × Kernel ℕ
ok_init args k = (0, args, record { current_id = u64 (k.current_id + 1); world = k.world + 1 })

abbrev nvme : DriverDef ℕ ℕ ℕ
nvme = record { init = some ok_init; uninit = λ s k. (0, k); codes = some (0x1b360010 ∷ 0 ∷ []) }

abbrev no_codes : DriverDef ℕ ℕ ℕ
no_codes = record { init = none; uninit = λ s k. (0, k); codes = none }

-- The PCI group has a driver without codes, then the NVMe driver.
abbrev table : ℕ → ℕ → Option (DriverDef ℕ ℕ ℕ)
table zero i = none
table (suc zero) i = none
table (suc (suc zero)) i = none
table (suc (suc (suc zero))) i = none
table (suc (suc (suc (suc zero)))) zero = some no_codes
table (suc (suc (suc (suc zero)))) (suc zero) = some nvme
table (suc (suc (suc (suc zero)))) (suc (suc i)) = none
table (suc (suc (suc (suc (suc g))))) i = none

abbrev drivers : Drivers ℕ ℕ ℕ
drivers = record {
  table = table;
  entry_count = λ g. 2;
  group_count = 6;
  terminator = 0;
  atomic_inc = λ n. (u64 (n + 1), u64 (n + 1));
  atomic_inc_value = λ n. refl;
  atomic_inc_counter = λ n. refl;
}

pci-IsTerminated : IsTerminated drivers dev_pci
pci-IsTerminated zero = tt
pci-IsTerminated (suc zero) = inr (inl refl)
pci-IsTerminated (suc (suc i)) = tt

some_inj : {A : Type 0} {a b : A} → some a ≡ some b → a ≡ b
some_inj e = cc

drivers-KeepsIds : KeepsIds drivers 1
drivers-KeepsIds zero i def init args k t e small = absurd (ground arith)
drivers-KeepsIds (suc zero) i def init args k t e small = absurd (ground arith)
drivers-KeepsIds (suc (suc zero)) i def init args k t e small = absurd (ground arith)
drivers-KeepsIds (suc (suc (suc zero))) i def init args k t e small = absurd (ground arith)
drivers-KeepsIds (suc (suc (suc (suc zero)))) zero def init args k t e small = absurd (ground arith)
drivers-KeepsIds (suc (suc (suc (suc zero)))) (suc zero) def init args k t e small =
    let same : some ok_init ≡ some init = ap (λ (d : DriverDef ℕ ℕ ℕ). d.init) (some_inj t) ∙ e in
    rw (← some_inj same) (omega arith)
drivers-KeepsIds (suc (suc (suc (suc zero)))) (suc (suc i)) def init args k t e small =
    absurd (ground arith)
drivers-KeepsIds (suc (suc (suc (suc (suc g))))) i def init args k t e small = absurd (ground arith)

abbrev kernel : Kernel ℕ
kernel = record { current_id = 7; world = 0 }

abbrev kernel' : Kernel ℕ
kernel' = record { current_id = 9; world = 1 }

abbrev resource : Resource ℕ ℕ ℕ
resource = record {
  driver = nvme;
  driver_state = some 5;
  id = 7;
  dri_index = 1;
  dri_group = dev_pci;
}

nvme_starts :
    init_pci_resource drivers true 0x1b36 0x0010 (some 5) kernel ≡ done (some resource, kernel')
unfolding init_pci_resource
nvme_starts = refl

unknown_device : init_pci_resource drivers true 0x8086 0x0010 (some 5) kernel ≡ done (none, kernel)
unfolding init_pci_resource
unknown_device = refl

abbrev vendor : ℕ
vendor = 0x1b36

abbrev device : ℕ
device = 0x0010

internal_find_code-Found_example :
    Found drivers 0x1b360010 dev_pci 0 2 (internal_find_code drivers 0x1b360010 dev_pci)
internal_find_code-Found_example =
    internal_find_code-Found drivers 0x1b360010 dev_pci pci-IsTerminated

init_resource-IsStarted_example :
    (init_resource drivers true (at dev_pci) (at 1) (some 5) kernel ≡ (some resource, kernel')) ↔ (
      (g : ℕ) × (i : ℕ) × (at dev_pci ≡ at g)
      × (at 1 ≡ at i)
      × IsStarted drivers g i (some 5) kernel kernel' resource)
init_resource-IsStarted_example =
    init_resource-IsStarted drivers (at dev_pci) (at 1) (some 5) kernel kernel' resource
      (omega arith)

abbrev resource' : Resource ℕ ℕ ℕ
resource' = record resource { id = 9 }

abbrev kernel'' : Kernel ℕ
kernel'' = record { current_id = 11; world = 2 }

two_calls : Calls drivers 1 kernel (7 ∷ 9 ∷ []) kernel''
unfolding init_resource
two_calls =
    started true (at dev_pci) (at 1) (some 5) resource 7 (omega arith) refl refl (
      started true (at dev_pci) (at 1) (some 5) resource' 9 (omega arith) refl refl (stop kernel''))

Calls-Ascending_example : Ascending 7 (7 ∷ 9 ∷ [])
Calls-Ascending_example = Calls-Ascending drivers 1 drivers-KeepsIds two_calls

init_pci_resource-Started_example :
    ¬ ((vendor ≡ 0xffff) × (device ≡ 0xffff))
    × ((i : ℕ) × Drives drivers (pci_target 0x1b36 0x0010) dev_pci i
        × ((j : ℕ) → 0 ≤ j → j < i → ¬ Drives drivers (pci_target 0x1b36 0x0010) dev_pci j)
        × IsStarted drivers dev_pci i (some 5) kernel kernel' resource)
init_pci_resource-Started_example =
    init_pci_resource-Started drivers true 0x1b36 0x0010 (some 5) kernel kernel' resource
      pci-IsTerminated (omega arith) nvme_starts
