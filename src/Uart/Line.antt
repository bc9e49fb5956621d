-- ===== src/Uart/Line.antt =====
-- src/c/sysdev/serial/uart.c: what each function makes of the line control register.
use kdrivers.Base.{
  ℕ, ◌+◌, ◌*◌, ◌/◌, ◌%◌, ◌^◌, ◌<◌, ◌≡◌, refl, ap, ◌∙◌, ◌==◌, ◌&&◌, leb, ltb, if◌then◌else◌, bit_or,
  bit_or-fields, u8, u32, sub32, ◌<<◌, arith,
}
use kdrivers.Base.Masks.{Masks}
use kdrivers.Base.Ports.{Ports, IsSerial}
use kdrivers.Uart.{
  DriverState, no_parity, one_stop_bit, two_stop_bits, get_data_bits, set_data_bits, get_parity,
  set_parity, get_stop_bits, stop_bits_line, set_stop_bits,
}

-- The fields of the register.
abbrev pub data_field : ℕ → ℕ
data_field line = line % 4

abbrev pub stop_field : ℕ → ℕ
stop_field line = line / 4 % 2

abbrev pub parity_field : ℕ → ℕ
parity_field line = line / 8 % 8

-- `line` with its parity field set to `f`.
abbrev with_parity : ℕ → ℕ → ℕ
with_parity line f = line / 64 * 64 + f * 8 + line % 8

unfoldable pub parity_code : ℕ → ℕ
parity_code parity = if parity == no_parity then 0 else bit_or (u32 (parity << 1)) 1

pub parity_code-odd : (parity : ℕ) → parity < 4 → parity_code parity ≡ 2 * parity + 1
unfolding parity_code
parity_code-odd parity h = ground (arith, bit_or-fields 1 parity 1)

-- What the functions that read the register make of the fields.
unfoldable pub parity_of : ℕ → ℕ
parity_of field = if field % 2 == 0 then no_parity else field / 2

unfoldable pub stop_of : ℕ → ℕ
stop_of field = if field == 0 then one_stop_bit else two_stop_bits

-- The register with its stop bit set as the count says; a count that is none of the three that
-- are named leaves it.
unfoldable pub stop_line : ℕ → ℕ → ℕ
stop_line count line =
    if count == 1
    then line / 8 * 8 + line % 4
    else if leb count 3 && ltb 0 count
    then line / 8 * 8 + 4 + line % 4
    else line

module _ (p : Ports) (state : DriverState) (s : IsSerial p state.port_base)
    (fits : state.port_base + 7 < 2 ^ 32) where
  abbrev pub port : ℕ
  port = u32 (state.port_base + 3)

  port_line : port ≡ state.port_base + 3
  port_line = omega arith

  -- The register is read, and a byte computed from it written back.
  abbrev update : (ℕ → ℕ) → p.World → p.World
  update f w = let (line, w1) = p.inb port w in p.outb port (f line) w1

  pub line-update :
      (f : ℕ → ℕ) (w : p.World) → f (s.line w) < 256 → s.line (update f w) ≡ f (s.line w)
  line-update f w h =
      ap (λ (q : ℕ). s.line (p.outb q (f (p.inb q w).0) (p.inb q w).1)) port_line
      ∙ (ap
            (λ (l : ℕ).
              s.line (p.outb (state.port_base + 3) (f l) (p.inb (state.port_base + 3) w).1))
            (s.read_line w)
          ∙ s.write_line (f (s.line w)) (p.inb (state.port_base + 3) w).1 h)

  pub read_port : (w : p.World) → (p.inb port w).0 ≡ s.line w
  read_port w = ap (λ (q : ℕ). (p.inb q w).0) port_line ∙ s.read_line w

  module _ (m : Masks) where
    pub line-set_data_bits :
        (bits : ℕ) (w : p.World)
        → s.line (set_data_bits m p state bits w) ≡ s.line w / 4 * 4 + sub32 bits 5 % 4
    unfolding set_data_bits
    line-set_data_bits bits w =
        let field = m.write_field (s.line w) (sub32 bits 5) 0 2 in
        let byte = s.line_byte w in
        line-update (λ (l : ℕ). u8 (m.masked_write l (sub32 bits 5) 0 3)) w (omega arith)
        ∙ omega arith

    pub line-set_parity :
        (parity : ℕ) (w : p.World)
        → s.line (set_parity m p state parity w) ≡ with_parity (s.line w) (parity_code parity % 8)
    unfolding set_parity parity_code
    line-set_parity parity w =
        let field = m.write_field (s.line w) (parity_code parity) 3 3 in
        let byte = s.line_byte w in
        line-update (λ (l : ℕ). u8 (m.masked_write l (parity_code parity) 3 7)) w (omega arith)
        ∙ omega arith

    pub line-set_stop_bits :
        (count : ℕ) (w : p.World)
        → s.line (set_stop_bits m p state count w) ≡ stop_line count (s.line w)
    unfolding set_stop_bits stop_line
    line-set_stop_bits count w =
        let zero_field = m.write_field (s.line w) 0 2 1 in
        let one_field = m.write_field (s.line w) 1 2 1 in
        let byte = s.line_byte w in
        line-update (λ (l : ℕ). stop_bits_line m p l count) w
          (unfold stop_bits_line in ground arith)
        ∙ unfold stop_bits_line in ground arith

    pub get_data_bits-line :
        (w : p.World) → (get_data_bits m p state w).0 ≡ data_field (s.line w) + 5
    unfolding get_data_bits
    get_data_bits-line w =
        ap (λ (l : ℕ). m.masked_read l 0 3 + 5) (read_port w)
        ∙ ap (λ (l : ℕ). l + 5) (m.read_field (s.line w) 0 2)
        ∙ omega arith

    pub get_parity-line :
        (w : p.World) → (get_parity m p state w).0 ≡ parity_of (parity_field (s.line w))
    unfolding get_parity parity_of
    get_parity-line w =
        ap (λ (l : ℕ). if m.masked_read l 3 1 == 0 then no_parity else m.masked_read l 4 3)
          (read_port w)
        ∙ rw (m.read_field (s.line w) 3 1, m.read_field (s.line w) 4 2) (ground arith)

    pub get_stop_bits-line :
        (w : p.World) → (get_stop_bits m p state w).0 ≡ stop_of (stop_field (s.line w))
    unfolding get_stop_bits stop_of
    get_stop_bits-line w =
        ap (λ (l : ℕ). if m.masked_read l 2 1 == 0 then one_stop_bit else two_stop_bits)
          (read_port w)
        ∙ rw (m.read_field (s.line w) 2 1) refl
