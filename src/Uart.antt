-- ===== src/Uart.antt =====
-- src/c/sysdev/serial/uart.c: a 16550 serial port. Signed values are 32-bit patterns. Each
-- function gives the world after its port accesses.
pub mod Line
pub mod Laws
pub mod Simulated
pub mod Examples
use kdrivers.Base.{
  ℕ, ◌+◌, ◌-◌, ◌*◌, ◌/◌, ◌%◌, ◌^◌, Option, none, some, Bool, true, false, List, [], ◌∷◌, ◌==◌, ltb,
  if◌then◌else◌, bit_and, bit_or, u8, u32, sub32, ◌<<◌, ◌>>>◌,
}
use kdrivers.Base.Alloc.{neg}
use kdrivers.Base.Masks.{Masks}
use kdrivers.Base.Ports.{Ports}

-- `struct driver_state`
pub record DriverState : Type 0 where
  pub port_base : ℕ
  pub align : ℕ
  pub data_len : ℕ

-- The fields of `ARC_ACPIDevInfo` that are read, behind its `io` pointer.
pub record IoInfo : Type 0 where
  pub length : ℕ
  pub base : ℕ
  pub align : ℕ

abbrev pub no_parity : ℕ
no_parity = neg 1

abbrev pub odd_parity : ℕ
odd_parity = 0

abbrev pub even_parity : ℕ
even_parity = 1

abbrev pub mark_parity : ℕ
mark_parity = 2

abbrev pub space_parity : ℕ
space_parity = 3

abbrev pub one_stop_bit : ℕ
one_stop_bit = 1

abbrev pub one_one_half_stop_bits : ℕ
one_one_half_stop_bits = 2

abbrev pub two_stop_bits : ℕ
two_stop_bits = 3

module _ (m : Masks) (p : Ports) where
  open m use {masked_read, masked_write}
  open p use {World, inb, outb}

  -- A read of the register at `offset`, and a write of a byte to it.
  abbrev pub read_register : DriverState → ℕ → World → ℕ × World
  read_register state offset w = inb (u32 (state.port_base + offset)) w

  abbrev pub write_register : DriverState → ℕ → ℕ → World → World
  write_register state offset value w = outb (u32 (state.port_base + offset)) value w

  unfoldable pub set_buad_rate_divisor : DriverState → ℕ → World → World
  set_buad_rate_divisor state divisor w0 =
      let (line, w1) = read_register state 3 w0 in
      let dlab = u8 (masked_write line 1 7 1) in
      let w2 = write_register state 3 dlab w1 in
      let w3 = outb state.port_base (bit_and divisor 0xff) w2 in
      let w4 = write_register state 1 (bit_and (divisor >>> 8) 0xff) w3 in
      write_register state 3 (u8 (masked_write dlab 0 7 1)) w4

  unfoldable pub get_data_bits : DriverState → World → ℕ × World
  get_data_bits state w =
      let (line, w1) = read_register state 3 w in (masked_read line 0 0b11 + 5, w1)

  unfoldable pub set_data_bits : DriverState → ℕ → World → World
  set_data_bits state bits w =
      let (line, w1) = read_register state 3 w in
      write_register state 3 (u8 (masked_write line (sub32 bits 5) 0 0b11)) w1

  unfoldable pub get_parity : DriverState → World → ℕ × World
  get_parity state w =
      let (line, w1) = read_register state 3 w in
      (if masked_read line 3 0b001 == 0 then no_parity else masked_read line 4 0b11, w1)

  unfoldable pub set_parity : DriverState → ℕ → World → World
  set_parity state parity w =
      let (line, w1) = read_register state 3 w in
      let field = if parity == no_parity then 0 else bit_or (u32 (parity << 1)) 1 in
      write_register state 3 (u8 (masked_write line field 3 0b111)) w1

  unfoldable pub get_stop_bits : DriverState → World → ℕ × World
  get_stop_bits state w =
      let (line, w1) = read_register state 3 w in
      (if masked_read line 2 0b1 == 0 then one_stop_bit else two_stop_bits, w1)

  -- The `switch`: any other count leaves the value read as it is.
  unfoldable pub stop_bits_line : ℕ → ℕ → ℕ
  stop_bits_line line count =
      if count == one_stop_bit
      then u8 (masked_write line 0 2 0b1)
      else if count == one_one_half_stop_bits
      then u8 (masked_write line 1 2 0b1)
      else if count == two_stop_bits
      then u8 (masked_write line 1 2 0b1)
      else line

  unfoldable pub set_stop_bits : DriverState → ℕ → World → World
  unfolding stop_bits_line
  set_stop_bits state count w =
      let (line, w1) = read_register state 3 w in
      write_register state 3 (stop_bits_line line count) w1

  unfoldable pub clear_tx_fifo : DriverState → World → World
  clear_tx_fifo state w = write_register state 2 4 w

  unfoldable pub clear_rx_fifo : DriverState → World → World
  clear_rx_fifo state w = write_register state 2 2 w

  unfoldable pub enable_fifos : DriverState → World → ℕ × World
  enable_fifos state w =
      let (status, w1) = read_register state 2 (write_register state 2 1 w) in
      (if ltb (masked_read status 6 0b11) 0b10 then neg 1 else 0, w1)

  -- `memory` says whether `alloc` succeeds; the result is the code, the driver state, the world.
  unfoldable pub init_uart : Bool → Bool → Option IoInfo → World → ℕ × Option DriverState × World
  unfolding set_data_bits set_parity set_stop_bits
  init_uart memory true (some io) w =
      let state : DriverState = record {
        port_base = io.base;
        align = io.align;
        data_len = io.length;
      } in
      let w1 = set_data_bits state 8 w in
      let w2 = set_parity state no_parity w1 in
      let w3 = set_stop_bits state one_stop_bit w2 in
      if memory then (0, some state, w3) else (neg 2, none, w)
  init_uart memory res args w = (neg 1, none, w)

unfoldable pub uninit_uart : ℕ
uninit_uart = 0

-- The list of ACPI codes, up to the terminator that the kernel's headers name.
abbrev pub uart_codes : ℕ → List ℕ
uart_codes terminator = 0x9D2E741F3E2DEEC7 ∷ terminator ∷ []

-- Neither direction of transfer is implemented: both give 0 for any arguments.
unfoldable pub read_uart : Bool → ℕ → ℕ → ℕ
read_uart buffer size count = 0

unfoldable pub write_uart : Bool → ℕ → ℕ → ℕ
write_uart buffer size count = 0

unfoldable pub stat_uart : Bool → Bool → ℕ
stat_uart true true = 0
stat_uart res stat = neg 1
