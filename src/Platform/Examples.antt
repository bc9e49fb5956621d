-- ===== src/Platform/Examples.antt =====
-- The table of a PC with a simulated serial port, and what its devices get.
use kdrivers.Base.{ℕ, zero, suc, ◌+◌, ◌≡◌, ◌≢◌, refl, Option, none, some, true, u64, done, arith}
use kdrivers.Base.Masks.{plain_masks}
use kdrivers.Nvme.PciFunctions.{pci_codes}
use kdrivers.Platform.{rtc_driver, hpet_driver, uart_driver}
use kdrivers.Platform.Acpi.{uart_code, IsAcpiTable, init_acpi_resource-uart}
use kdrivers.Platform.Pci.{IsPciTable, init_pci_resource-nvme}
use kdrivers.Resource.{init_acpi_resource, init_pci_resource}
use kdrivers.Resource.Codes.{NoCodes}
use kdrivers.Resource.Start.{IsStarted}
use kdrivers.Resource.Table.{DriverDef, Drivers, Resource, Kernel, dev_acpi, dev_pci}
use kdrivers.Uart.{DriverState, IoInfo, no_parity}
use kdrivers.Uart.Laws.{settings, state_of}
use kdrivers.Uart.Simulated.{Chip, ports, io, serial, chip, fits}

abbrev Def : Type 0
Def = DriverDef Chip DriverState IoInfo

-- A driver with the codes of the NVMe driver that starts without a device.
abbrev nvme : Def
nvme = record {
  init = some (λ args k. (0, none, k));
  uninit = λ s k. (0, k);
  codes = some (pci_codes 0);
}

abbrev acpi_table : ℕ → Option Def
acpi_table zero = some (hpet_driver plain_masks ports 0)
acpi_table (suc zero) = some (uart_driver plain_masks ports 0 true)
acpi_table (suc (suc zero)) = some (rtc_driver plain_masks ports 0)
acpi_table (suc (suc (suc i))) = none

abbrev pci_table : ℕ → Option Def
pci_table zero = some nvme
pci_table (suc i) = none

abbrev table : ℕ → ℕ → Option Def
table (suc (suc (suc zero))) i = acpi_table i
table (suc (suc (suc (suc zero)))) i = pci_table i
table g i = none

abbrev drivers : Drivers Chip DriverState IoInfo
drivers = record {
  table = table;
  entry_count = λ g. 3;
  group_count = 6;
  terminator = 0;
  atomic_inc = λ n. (u64 (n + 1), u64 (n + 1));
  atomic_inc_value = λ n. refl;
  atomic_inc_counter = λ n. refl;
}

acpi_others : (i : ℕ) → i ≢ 2 → i ≢ 0 → i ≢ 1 → NoCodes drivers dev_acpi i
acpi_others zero r h u = absurd (h refl)
acpi_others (suc zero) r h u = absurd (u refl)
acpi_others (suc (suc zero)) r h u = absurd (r refl)
acpi_others (suc (suc (suc i))) r h u = tt

acpi-IsAcpiTable : IsAcpiTable plain_masks ports drivers true
acpi-IsAcpiTable = record {
  rtc_at = 2;
  hpet_at = 0;
  uart_at = 1;
  uart_inside = omega arith;
  has_rtc = refl;
  has_hpet = refl;
  has_uart = refl;
  others = acpi_others;
  group_known = omega arith;
  uart_apart = omega arith;
}

abbrev kernel : Kernel Chip
kernel = record { current_id = 7; world = chip }

init_acpi_resource-uart_example :
    (r : Resource Chip DriverState IoInfo) × (k' : Kernel Chip) × (init_acpi_resource drivers true
        uart_code
        (some io)
        kernel
      ≡ done (some r, k'))
    × (r.driver_state ≡ some (state_of plain_masks ports io serial))
    × (r.dri_group ≡ dev_acpi)
    × (r.dri_index ≡ acpi-IsAcpiTable.uart_at)
    × (r.id ≡ 7)
    × (k'.current_id ≡ 8)
    × (settings plain_masks ports (state_of plain_masks ports io serial) serial fits k'.world
        ≡ (8, no_parity, 1))
init_acpi_resource-uart_example =
    init_acpi_resource-uart plain_masks ports drivers acpi-IsAcpiTable io serial fits kernel
      (omega arith)

pci_others : (i : ℕ) → i ≢ 0 → NoCodes drivers dev_pci i
pci_others zero ne = absurd (ne refl)
pci_others (suc i) ne = tt

pci-IsPciTable : IsPciTable drivers
pci-IsPciTable = record {
  nvme_at = 0;
  driver = nvme;
  has_nvme = refl;
  nvme_codes = refl;
  others = pci_others;
}

abbrev started : Resource Chip DriverState IoInfo
started = record { driver = nvme; driver_state = none; id = 7; dri_index = 0; dri_group = dev_pci }

abbrev kernel' : Kernel Chip
kernel' = record { current_id = 8; world = chip }

nvme_starts :
    init_pci_resource drivers true 0x1b36 0x0010 (some io) kernel ≡ done (some started, kernel')
unfolding init_pci_resource pci_codes
nvme_starts = refl

abbrev vendor : ℕ
vendor = 0x1b36

abbrev device : ℕ
device = 0x0010

init_pci_resource-nvme_example :
    (vendor ≡ 0x1b36)
    × (device ≡ 0x0010)
    × IsStarted drivers dev_pci pci-IsPciTable.nvme_at (some io) kernel kernel' started
init_pci_resource-nvme_example =
    init_pci_resource-nvme drivers pci-IsPciTable true vendor device (some io) kernel kernel'
      started (omega arith) (omega arith) (omega arith) nvme_starts
