-- ===== src/Uart/Laws.antt =====
-- src/c/sysdev/serial/uart.c: what is set is what is read, setting by setting.
use kdrivers.Base.{
  ℕ, ◌+◌, ◌*◌, ◌/◌, ◌%◌, ◌^◌, ◌<◌, ◌≤◌, ◌≡◌, ◌⊎◌, inl, inr, refl, ap, ◌∙◌, some, true, ◌==◌,
  if◌then◌else◌, bit_and-mask8, u8, u32, ◌>>>◌, arith,
}
use kdrivers.Base.Masks.{Masks}
use kdrivers.Base.Ports.{Ports, IsSerial}
use kdrivers.Uart.{
  DriverState, IoInfo, no_parity, one_stop_bit, two_stop_bits, get_data_bits, set_data_bits,
  get_parity, set_parity, get_stop_bits, set_stop_bits, init_uart, set_buad_rate_divisor,
}
use kdrivers.Uart.Line.{
  data_field, stop_field, parity_field, parity_code, parity_code-odd, parity_of, stop_of, stop_line,
  line-set_data_bits, line-set_parity, line-set_stop_bits, get_data_bits-line, get_parity-line,
  get_stop_bits-line,
}

-- The code of a parity is odd, and that of none is 0.
parity_code-known :
    (parity : ℕ)
    → (parity ≡ no_parity) ⊎ (parity < 4)
    → ((parity ≡ no_parity) × (parity_code parity ≡ 0))
      ⊎ ((parity < 4) × (parity_code parity ≡ 2 * parity + 1))
unfolding parity_code
parity_code-known parity (inl e) = inl (e, ground arith)
parity_code-known parity (inr h) = inr (h, parity_code-odd parity h)

module _ (m : Masks) (p : Ports) (state : DriverState) (s : IsSerial p state.port_base)
    (fits : state.port_base + 7 < 2 ^ 32) where
  -- What the three functions that read the line settings give.
  abbrev pub settings : p.World → ℕ × ℕ × ℕ
  settings w =
      ((get_data_bits m p state w).0, (get_parity m p state w).0, (get_stop_bits m p state w).0)

  abbrev settings_of : ℕ → ℕ × ℕ × ℕ
  settings_of line = (data_field line + 5, parity_of (parity_field line), stop_of (stop_field line))

  settings-line : (w : p.World) → settings w ≡ settings_of (s.line w)
  settings-line w = cc (
    get_data_bits-line p state s fits m w,
    get_parity-line p state s fits m w,
    get_stop_bits-line p state s fits m w,
  )

  -- Setting from 5 to 8 data bits sets them, and leaves parity and stop bits.
  settings-set_data_bits :
      (bits : ℕ) (w : p.World)
      → 5 ≤ bits
      → bits ≤ 8
      → settings (set_data_bits m p state bits w) ≡ (bits, (settings w).1, (settings w).2)
  settings-set_data_bits bits w lo hi =
      settings-line (set_data_bits m p state bits w)
      ∙ (rw (line-set_data_bits p state s fits m bits w) (
          ground (
            arith,
            get_parity-line p state s fits m w,
            get_stop_bits-line p state s fits m w,
            s.line_byte w,
          )))

  -- Setting a parity, or none, sets it, and leaves data bits and stop bits.
  settings-set_parity :
      (parity : ℕ) (w : p.World)
      → (parity ≡ no_parity) ⊎ (parity < 4)
      → settings (set_parity m p state parity w) ≡ ((settings w).0, parity, (settings w).2)
  unfolding parity_of
  settings-set_parity parity w known =
      settings-line (set_parity m p state parity w)
      ∙ (rw (line-set_parity p state s fits m parity w) (
          ground (
            arith,
            parity_code-known parity known,
            get_data_bits-line p state s fits m w,
            get_stop_bits-line p state s fits m w,
            s.line_byte w,
          )))

  -- Setting one stop bit sets one. The two counts above one share a bit, and both read as two.
  -- Data bits and parity stay.
  settings-set_stop_bits :
      (count : ℕ) (w : p.World)
      → 1 ≤ count
      → count ≤ 3
      → settings (set_stop_bits m p state count w)
        ≡ ((settings w).0, (settings w).1, if count == 1 then one_stop_bit else two_stop_bits)
  unfolding stop_of stop_line
  settings-set_stop_bits count w lo hi =
      settings-line (set_stop_bits m p state count w)
      ∙ (rw (line-set_stop_bits p state s fits m count w) (
          ground (
            arith,
            get_data_bits-line p state s fits m w,
            get_parity-line p state s fits m w,
            s.line_byte w,
          )))

  -- Setting from 5 to 8 data bits sets them; setting a parity, or none, sets it; and setting one
  -- stop bit sets one, where the two counts above one share a bit, and both read as two. Each
  -- leaves the other two settings as they were.
  pub settings-set :
      (bits parity count : ℕ) (w : p.World)
      → 5 ≤ bits
      → bits ≤ 8
      → (parity ≡ no_parity) ⊎ (parity < 4)
      → 1 ≤ count
      → count ≤ 3
      → (settings (set_data_bits m p state bits w) ≡ (bits, (settings w).1, (settings w).2))
        × (settings (set_parity m p state parity w) ≡ ((settings w).0, parity, (settings w).2))
        × (settings (set_stop_bits m p state count w)
            ≡ ((settings w).0, (settings w).1, if count == 1 then one_stop_bit else two_stop_bits))
  settings-set bits parity count w lo hi known one three = (
    settings-set_data_bits bits w lo hi,
    settings-set_parity parity w known,
    settings-set_stop_bits count w one three,
  )

  -- Setting the divisor writes both of its bytes behind the latch bit, and ends with the latch
  -- bit clear and the other line settings as they were.
  pub divisor-set_buad_rate_divisor :
      (divisor : ℕ) (w : p.World)
      → divisor < 2 ^ 16
      → (s.divisor (set_buad_rate_divisor m p state divisor w) ≡ divisor)
        × (s.line (set_buad_rate_divisor m p state divisor w) ≡ s.line w % 128)
  unfolding set_buad_rate_divisor
  divisor-set_buad_rate_divisor divisor w h =
      let base = state.port_base in
      let port : u32 (base + 3) ≡ base + 3 = omega arith in
      let high : u32 (base + 1) ≡ base + 1 = omega arith in
      let w1 = (p.inb (base + 3) w).1 in
      let on : u8 (m.masked_write (p.inb (base + 3) w).0 1 7 1) ≡ 128 + s.line w % 128 =
        rw (s.read_line w, m.write_field (s.line w) 1 7 1) (omega (arith, s.line_byte w)) in
      let off : u8 (m.masked_write (128 + s.line w % 128) 0 7 1) ≡ s.line w % 128 =
        rw (m.write_field (128 + s.line w % 128) 0 7 1) (omega (arith, s.line_byte w)) in
      let low_byte = bit_and-mask8 divisor in
      let high_byte = bit_and-mask8 (divisor >>> 8) in
      let w2 = p.outb (base + 3) (128 + s.line w % 128) w1 in
      let w3 = p.outb base (divisor % 256) w2 in
      let w4 = p.outb (base + 1) (divisor / 256 % 256) w3 in
      let w5 = p.outb (base + 3) (s.line w % 128) w4 in
      let line2 : s.line w2 ≡ 128 + s.line w % 128 = s.write_line _ w1 (omega arith) in
      let line3 : s.line w3 ≡ 128 + s.line w % 128 = s.write_low_line _ w2 ∙ line2 in
      let low : s.divisor w3 ≡ s.divisor w2 / 256 * 256 + divisor % 256 =
        s.write_low _ w2 (omega arith) (omega arith) in
      let both : s.divisor w4 ≡ divisor / 256 % 256 * 256 + s.divisor w3 % 256 =
        s.write_high _ w3 (omega arith) (omega arith) in
      let final : set_buad_rate_divisor m p state divisor w ≡ w5 =
        cc (port, high, on, off, low_byte, high_byte) in
      (
        ap s.divisor final ∙ s.write_line_divisor (s.line w % 128) w4 ∙ omega arith,
        ap s.line final ∙ s.write_line (s.line w % 128) w4 (omega arith),
      )

module _ (m : Masks) (p : Ports) (io : IoInfo) (s : IsSerial p io.base) where
  abbrev pub state_of : DriverState
  state_of = record { port_base = io.base; align = io.align; data_len = io.length }

  -- A port that is initialised is set to 8 data bits, no parity and one stop bit.
  pub settings-init_uart :
      (fits : io.base + 7 < 2 ^ 32) (w : p.World)
      → let r = init_uart m p true true (some io) w in
        (r.0 ≡ 0) × (r.1 ≡ some state_of) × (settings m p state_of s fits r.2 ≡ (8, no_parity, 1))
  unfolding init_uart
  settings-init_uart fits w =
      let w1 = set_data_bits m p state_of 8 w in
      let w2 = set_parity m p state_of no_parity w1 in
      (
        refl,
        refl,
        settings-set_stop_bits m p state_of s fits 1 w2 (omega arith) (omega arith)
            ∙ cc (
              settings-set_parity m p state_of s fits no_parity w1 (inl refl),
              settings-set_data_bits m p state_of s fits 8 w (omega arith) (omega arith),
            ),
      )
