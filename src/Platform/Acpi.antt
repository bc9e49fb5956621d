-- ===== src/Platform/Acpi.antt =====
-- src/c/resource.c with rtc.c, hpet.c and uart.c of src/c/sysdev/: which driver an ACPI device
-- gets, and what becomes of a serial port.
use kdrivers.Base.{
  ℕ, ◌+◌, ◌<◌, ◌^◌, ◌≡◌, ◌≢◌, refl, ap, sym, ◌∙◌, Option, some, Bool, true, u64, Outcome, done,
  arith,
}
use kdrivers.Base.Masks.{Masks}
use kdrivers.Base.Ports.{Ports, IsSerial}
use kdrivers.Platform.{rtc_driver, hpet_driver, uart_driver, start_uart}
use kdrivers.Resource.{internal_find_code, init_resource, init_acpi_resource}
use kdrivers.Resource.Codes.{
  HasCode, NoCodes, Drives-HasCode, drives, HasCode-Terminated, NoCodes-Terminated, NoCodes-Drives,
}
use kdrivers.Resource.Search.{
  Terminated, CodesOf, Drives, IsTerminated, Found, found, missing, internal_find_code-Found,
}
use kdrivers.Resource.Start.{init_resource_starts}
use kdrivers.Resource.Table.{at, minus, DriverDef, Drivers, Resource, Kernel, dev_acpi}
use kdrivers.Uart.{DriverState, IoInfo, no_parity}
use kdrivers.Uart.Laws.{settings, state_of, settings-init_uart}
use mathlib.Core.Path.{subst}
use native.Mathlib.Decide.{ℕ_discrete}

-- The codes of uart.c, rtc.c and hpet.c.
abbrev pub uart_code : ℕ
uart_code = 0x9D2E741F3E2DEEC7

abbrev pub rtc_code : ℕ
rtc_code = 0x95368E5074F817D9

abbrev pub hpet_code : ℕ
hpet_code = 0x326C57FE82510B91

module _ (m : Masks) (p : Ports) (drivers : Drivers p.World DriverState IoInfo) where
  open drivers use {table, entry_count, group_count, terminator}

  -- The ACPI group of the table has an entry for each of the three drivers, and no other that has
  -- codes. `memory` is what the allocation of a port's state gives.
  pub record IsAcpiTable (memory : Bool) : Type 0 where
    pub rtc_at : ℕ
    pub hpet_at : ℕ
    pub uart_at : ℕ
    pub uart_inside : uart_at < entry_count dev_acpi
    pub has_rtc : table dev_acpi rtc_at ≡ some (rtc_driver m p terminator)
    pub has_hpet : table dev_acpi hpet_at ≡ some (hpet_driver m p terminator)
    pub has_uart : table dev_acpi uart_at ≡ some (uart_driver m p terminator memory)
    pub others : (i : ℕ) → i ≢ rtc_at → i ≢ hpet_at → i ≢ uart_at → NoCodes drivers dev_acpi i
    pub group_known : dev_acpi < group_count
    pub uart_apart : uart_code ≢ terminator

  module _ (memory : Bool) (acpi : IsAcpiTable memory) where
    open acpi use {rtc_at, hpet_at, uart_at}

    rtc_code_at : HasCode drivers dev_acpi rtc_at rtc_code
    rtc_code_at = (rtc_driver m p terminator, acpi.has_rtc, refl)

    hpet_code_at : HasCode drivers dev_acpi hpet_at hpet_code
    hpet_code_at = (hpet_driver m p terminator, acpi.has_hpet, refl)

    uart_code_at : HasCode drivers dev_acpi uart_at uart_code
    uart_code_at = (uart_driver m p terminator memory, acpi.has_uart, refl)

    -- By entry: one of the three, or another.
    by_entry :
        (P : ℕ → Type 0)
        → P rtc_at
        → P hpet_at
        → P uart_at
        → ((i : ℕ) → NoCodes drivers dev_acpi i → P i)
        → (i : ℕ) → P i
    by_entry P r h u o i = elim (ℕ_discrete i rtc_at) [
      | yes e ↦ subst P (sym e) r
      | no nr ↦ elim (ℕ_discrete i hpet_at) [
        | yes e ↦ subst P (sym e) h
        | no nh ↦ elim (ℕ_discrete i uart_at) [
          | yes e ↦ subst P (sym e) u
          | no nu ↦ o i (acpi.others i nr nh nu)
        ]
      ]
    ]

    terminated : IsTerminated drivers dev_acpi
    terminated =
        by_entry (λ (i : ℕ). CodesOf drivers (Terminated drivers) (Unit {0}) (table dev_acpi i))
          (HasCode-Terminated drivers dev_acpi rtc_at rtc_code rtc_code_at)
          (HasCode-Terminated drivers dev_acpi hpet_at hpet_code hpet_code_at)
          (HasCode-Terminated drivers dev_acpi uart_at uart_code uart_code_at)
          (λ i none_of. NoCodes-Terminated drivers dev_acpi i none_of)

    uart_only : (i : ℕ) → Drives drivers uart_code dev_acpi i → i ≡ uart_at
    uart_only =
        by_entry (λ (i : ℕ). Drives drivers uart_code dev_acpi i → i ≡ uart_at)
          (λ d.
            let e = Drives-HasCode drivers dev_acpi rtc_at rtc_code uart_code rtc_code_at d in
            absurd (omega arith))
          (λ d.
            let e = Drives-HasCode drivers dev_acpi hpet_at hpet_code uart_code hpet_code_at d in
            absurd (omega arith))
          (λ d. refl)
          (λ i none_of d. absurd (NoCodes-Drives drivers dev_acpi i uart_code none_of d))

    found_uart :
        (result : Outcome kdrivers.Resource.Table.Index)
        → Found drivers uart_code dev_acpi 0 (entry_count dev_acpi) result
        → result ≡ done (at uart_at)
    found_uart result (found j e _ _ d first) = e ∙ ap (λ (i : ℕ). done (at i)) (uart_only j d)
    found_uart result (missing e none_of) = absurd (
        none_of uart_at (omega arith) acpi.uart_inside
          (drives drivers dev_acpi uart_at uart_code uart_code_at acpi.uart_apart))

  -- A serial port that ACPI reports with the code of the UART driver gets that driver, whatever
  -- the order of the table: the registry finds its entry, takes an id, runs its `init` with the
  -- port's addresses, and gives a resource with the driver's state. The port is then set to 8
  -- data bits, no parity and one stop bit.
  pub init_acpi_resource-uart :
      (acpi : IsAcpiTable true) (io : IoInfo) (serial : IsSerial p io.base)
      (fits : io.base + 7 < 2 ^ 32) (k : Kernel p.World)
      → k.current_id < 2 ^ 64
      → (r : Resource p.World DriverState IoInfo) × (k' : Kernel p.World) × (init_acpi_resource
            drivers true uart_code
            (some io)
            k
          ≡ done (some r, k'))
        × (r.driver_state ≡ some (state_of m p io serial))
        × (r.dri_group ≡ dev_acpi)
        × (r.dri_index ≡ acpi.uart_at)
        × (r.id ≡ k.current_id)
        × (k'.current_id ≡ u64 (k.current_id + 1))
        × (settings m p (state_of m p io serial) serial fits k'.world ≡ (8, no_parity, 1))
  unfolding init_acpi_resource
  init_acpi_resource-uart acpi io serial fits k small =
      let port = settings-init_uart m p io serial fits k.world in
      let next : Kernel p.World = record k { current_id = u64 (k.current_id + 1) } in
      let k' = (start_uart m p terminator true (some io) next).2 in
      let state : Option DriverState = some (state_of m p io serial) in
      let returned : start_uart m p terminator true (some io) next ≡ (0, state, k') =
        λ i. (port.0 i, port.1 i, k') in
      let started =
        init_resource_starts drivers dev_acpi acpi.uart_at (uart_driver m p terminator true)
          (start_uart m p terminator true) state (some io) k k' small acpi.group_known
          acpi.uart_inside acpi.has_uart refl returned in
      let search =
        found_uart true acpi (internal_find_code drivers uart_code dev_acpi)
          (internal_find_code-Found drivers uart_code dev_acpi (terminated true acpi)) in
      (
        record {
          driver = uart_driver m p terminator true;
          driver_state = state;
          id = k.current_id;
          dri_index = acpi.uart_at;
          dri_group = dev_acpi;
        },
        k',
        rw (search, started) refl,
        refl,
        refl,
        refl,
        refl,
        refl,
        port.2,
      )
