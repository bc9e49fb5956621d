-- ===== src/Platform.antt =====
-- src/c/sysdev/: the entries of the driver table for the devices of a PC, as `ARC_REGISTER_DRIVER`
-- makes them, with the functions that the registry calls.
pub mod Acpi
pub mod Pci
pub mod Examples
use kdrivers.Base.{ℕ, Option, none, some, Bool, true, false, ◌≡◌}
use kdrivers.Base.Masks.{Masks}
use kdrivers.Base.Ports.{Ports}
use kdrivers.Clock.{init_rtc, uninit_rtc, rtc_codes, init_hpet, uninit_hpet, hpet_codes}
use kdrivers.Resource.Table.{DriverDef, Kernel}
use kdrivers.Uart.{DriverState, IoInfo, init_uart, uninit_uart, uart_codes}

-- Whether a pointer is not `NULL`.
abbrev given : {A : Type 0} → Option A → Bool
given none = false
given (some _) = true

-- `terminator` is the one of the kernel's headers. A driver is started with the resource that its
-- state goes to, which is not `NULL`.
module _ (m : Masks) (p : Ports) (terminator : ℕ) where
  abbrev pub Def : Type 0
  Def = DriverDef p.World DriverState IoInfo

  abbrev pub rtc_driver : Def
  rtc_driver = record {
    init = some (λ args k. (init_rtc true (given args), none, k));
    uninit = λ state k. (uninit_rtc, k);
    codes = some (rtc_codes terminator);
  }

  abbrev pub hpet_driver : Def
  hpet_driver = record {
    init = some (λ args k. (init_hpet, none, k));
    uninit = λ state k. (uninit_hpet, k);
    codes = some (hpet_codes terminator);
  }

  -- `memory` says whether the allocation of the state succeeds.
  abbrev pub start_uart :
      Bool → Option IoInfo → Kernel p.World → ℕ × Option DriverState × Kernel p.World
  start_uart memory args k =
      let r = init_uart m p memory true args k.world in (r.0, r.1, record k { world = r.2 })

  abbrev pub uart_driver : Bool → Def
  uart_driver memory = record {
    init = some (start_uart memory);
    uninit = λ state k. (uninit_uart, k);
    codes = some (uart_codes terminator);
  }
