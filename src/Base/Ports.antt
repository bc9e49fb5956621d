-- ===== src/Base/Ports.antt =====
-- Port input and output (arch/io/port.h, outside the repository), and the registers of a serial
-- port that its documentation describes.
use Prim.Native.Nat.{ℕ, ◌+◌, ◌*◌, ◌/◌, ◌%◌, ◌≤◌, ◌<◌}
use mathlib.Core.Path.{◌≡◌}

pub record Ports : Type 1 where
  pub World : Type 0
  pub inb : ℕ → World → ℕ × World
  pub outb : ℕ → ℕ → World → World

-- A 16550 at `base`: a line control register that reads as it was written, and a divisor of two
-- bytes that is reached in place of the data registers while the latch bit (bit 7 of line
-- control) is set. What stands behind the other registers is left open.
pub record IsSerial (p : Ports) (base : ℕ) : Type 0 where
  pub line : p.World → ℕ
  pub divisor : p.World → ℕ
  pub line_byte : (w : p.World) → line w < 256
  pub read_line : (w : p.World) → (p.inb (base + 3) w).0 ≡ line w
  pub read_keeps_line : (w : p.World) → line (p.inb (base + 3) w).1 ≡ line w
  pub read_keeps_divisor : (w : p.World) → divisor (p.inb (base + 3) w).1 ≡ divisor w
  pub write_line : (v : ℕ) (w : p.World) → v < 256 → line (p.outb (base + 3) v w) ≡ v
  pub write_line_divisor : (v : ℕ) (w : p.World) → divisor (p.outb (base + 3) v w) ≡ divisor w
  pub write_low_line : (v : ℕ) (w : p.World) → line (p.outb base v w) ≡ line w
  pub write_high_line : (v : ℕ) (w : p.World) → line (p.outb (base + 1) v w) ≡ line w
  pub write_low :
      (v : ℕ) (w : p.World)
      → v < 256
      → 128 ≤ line w
      → divisor (p.outb base v w) ≡ divisor w / 256 * 256 + v
  pub write_high :
      (v : ℕ) (w : p.World)
      → v < 256
      → 128 ≤ line w
      → divisor (p.outb (base + 1) v w) ≡ v * 256 + divisor w % 256
