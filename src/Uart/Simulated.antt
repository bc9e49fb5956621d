-- ===== src/Uart/Simulated.antt =====
-- A simulated 16550, at which the results about serial ports are tried.
use kdrivers.Base.{
  ℕ, ◌+◌, ◌*◌, ◌/◌, ◌%◌, ◌^◌, ◌≤◌, ◌<◌, ◌≡◌, refl, ◌==◌, leb, if◌then◌else◌, ◌&&◌, arith,
}
use kdrivers.Base.Ports.{Ports, IsSerial}
use kdrivers.Uart.{IoInfo}

pub record Chip : Type 0 where
  pub line : ℕ
  pub divisor : ℕ

-- A port at 0x3f8 whose data registers go nowhere while the latch bit is clear.
abbrev pub read_chip : ℕ → Chip → ℕ × Chip
read_chip port c = (if port == 0x3fb then c.line % 256 else 0, c)

abbrev pub write_chip : ℕ → ℕ → Chip → Chip
write_chip port v c =
    if port == 0x3fb
    then record c { line = v }
    else if port == 0x3f8 && leb 128 (c.line % 256)
    then record c { divisor = c.divisor / 256 * 256 + v }
    else if port == 0x3f9 && leb 128 (c.line % 256)
    then record c { divisor = v * 256 + c.divisor % 256 }
    else c

abbrev pub ports : Ports
ports = record { World = Chip; inb = read_chip; outb = write_chip }

abbrev pub io : IoInfo
io = record { length = 8; base = 0x3f8; align = 1 }

pub chip_low :
    (v : ℕ) (c : Chip)
    → v < 256
    → 128 ≤ c.line % 256
    → (write_chip 0x3f8 v c).divisor ≡ c.divisor / 256 * 256 + v
chip_low v c h on = ground arith

pub chip_high :
    (v : ℕ) (c : Chip)
    → v < 256
    → 128 ≤ c.line % 256
    → (write_chip 0x3f9 v c).divisor ≡ v * 256 + c.divisor % 256
chip_high v c h on = ground arith

pub chip_low_line : (v : ℕ) (c : Chip) → (write_chip 0x3f8 v c).line % 256 ≡ c.line % 256
chip_low_line v c = ground arith

pub chip_high_line : (v : ℕ) (c : Chip) → (write_chip 0x3f9 v c).line % 256 ≡ c.line % 256
chip_high_line v c = ground arith

abbrev pub serial : IsSerial ports 0x3f8
serial = record {
  line = λ c. c.line % 256;
  divisor = λ c. c.divisor;
  line_byte = λ c. omega arith;
  read_line = λ c. refl;
  read_keeps_line = λ c. refl;
  read_keeps_divisor = λ c. refl;
  write_line = λ v c h. omega arith;
  write_line_divisor = λ v c. refl;
  write_low_line = chip_low_line;
  write_high_line = chip_high_line;
  write_low = chip_low;
  write_high = chip_high;
}

abbrev pub chip : Chip
chip = record { line = 0x1f; divisor = 12 }

pub fits : 0x3f8 + 7 < 2 ^ 32
fits = omega arith
