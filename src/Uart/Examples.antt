-- ===== src/Uart/Examples.antt =====
-- src/c/sysdev/serial/uart.c: the results at a simulated port, and runs of the functions.
use kdrivers.Base.{◌%◌, ◌≡◌, refl, inr, arith}
use kdrivers.Base.Masks.{plain_masks}
use kdrivers.Uart.{
  DriverState, even_parity, get_parity, set_data_bits, set_parity, set_stop_bits,
  set_buad_rate_divisor,
}
use kdrivers.Uart.Simulated.{ports, serial, chip, fits}
use kdrivers.Uart.Laws.{settings, settings-set, divisor-set_buad_rate_divisor}

abbrev state : DriverState
state = record { port_base = 0x3f8; align = 1; data_len = 8 }

reads_even : (get_parity plain_masks ports state chip).0 ≡ even_parity
unfolding get_parity
reads_even = refl

settings-set_example :
    (settings plain_masks ports state serial fits (set_data_bits plain_masks ports state 5 chip) ≡ (
      5,
      (settings plain_masks ports state serial fits chip).1,
      (settings plain_masks ports state serial fits chip).2,
    ))
    × (settings plain_masks ports state serial fits
          (set_parity plain_masks ports state even_parity chip)
        ≡ (
          (settings plain_masks ports state serial fits chip).0,
          even_parity,
          (settings plain_masks ports state serial fits chip).2,
        ))
    × (settings plain_masks ports state serial fits (set_stop_bits plain_masks ports state 2 chip)
        ≡ (
          (settings plain_masks ports state serial fits chip).0,
          (settings plain_masks ports state serial fits chip).1,
          3,
        ))
settings-set_example =
    settings-set plain_masks ports state serial fits 5 even_parity 2 chip (omega arith)
      (omega arith) (inr (omega arith)) (omega arith) (omega arith)

divisor-set_buad_rate_divisor_example :
    ((set_buad_rate_divisor plain_masks ports state 0x180 chip).divisor ≡ 0x180)
    × ((set_buad_rate_divisor plain_masks ports state 0x180 chip).line % 256 ≡ 0x1f)
divisor-set_buad_rate_divisor_example =
    divisor-set_buad_rate_divisor plain_masks ports state serial fits 0x180 chip (omega arith)
