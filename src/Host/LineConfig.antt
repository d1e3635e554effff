-- ===== src/Host/LineConfig.antt =====
-- decode_serial_config of zimodem_host.cpp: the ESP32 SerialConfig bitmap, taken apart.
-- A mask of two adjacent bits is a division and a remainder.
use bit_magic_zi_modem.Base.{
  ℕ, ◌+◌, ◌-◌, ◌*◌, ◌/◌, ◌%◌, ◌≤◌, ◌<◌, ◌≡◌, ◌⊎◌, arith, ◌==◌, if◌then◌else◌,
}

-- What the three out parameters get.
pub record Framing : Type 0 where
  pub data_bits : ℕ
  pub parity : ℕ
  pub stop_bits_x10 : ℕ

abbrev pub parity_none : ℕ
parity_none = 0

abbrev pub parity_odd : ℕ
parity_odd = 1

abbrev pub parity_even : ℕ
parity_even = 2

-- `config & 0x0C) >> 2`, `config & 0x03` and `(config & 0x30) >> 4`.
unfoldable pub data_field : ℕ → ℕ
data_field config = config / 4 % 4

unfoldable pub parity_field : ℕ → ℕ
parity_field config = config % 4

unfoldable pub stop_field : ℕ → ℕ
stop_field config = config / 16 % 4

unfoldable pub decode_parity : ℕ → ℕ
decode_parity field =
    if field == 3 then parity_odd else if field == 2 then parity_even else parity_none

unfoldable pub decode_stop : ℕ → ℕ
decode_stop field = if field == 3 then 20 else if field == 2 then 15 else 10

unfoldable pub decode_serial_config : ℕ → Framing
decode_serial_config config = record {
  data_bits = 5 + data_field config;
  parity = decode_parity (parity_field config);
  stop_bits_x10 = decode_stop (stop_field config);
}

-- The values that zimodem_host.h promises.
pub record IsFraming (f : Framing) : Type 0 where
  pub bits_from : 5 ≤ f.data_bits
  pub bits_to : f.data_bits ≤ 8
  pub a_parity : f.parity ≤ 2
  pub a_stop : (f.stop_bits_x10 ≡ 10) ⊎ (f.stop_bits_x10 ≡ 15) ⊎ (f.stop_bits_x10 ≡ 20)

-- Whatever the bitmap, the answers are among those that the header documents.
pub decode_serial_config-IsFraming : (config : ℕ) → IsFraming (decode_serial_config config)
unfolding decode_serial_config data_field parity_field stop_field decode_parity decode_stop
decode_serial_config-IsFraming config = record {
  bits_from = omega arith;
  bits_to = omega arith;
  a_parity = ground arith;
  a_stop = ground arith;
}

-- The bitmap that the UART_* macros make of a framing, with any bits above the six that are read.
abbrev pub stop_bits : ℕ → ℕ
stop_bits stop = if stop == 20 then 3 else if stop == 15 then 2 else 1

abbrev pub parity_bits : ℕ → ℕ
parity_bits parity = if parity == 1 then 3 else if parity == 2 then 2 else 0

abbrev pub encode : Framing → ℕ → ℕ
encode f high =
    parity_bits f.parity + 4 * (f.data_bits - 5) + 16 * stop_bits f.stop_bits_x10 + 64 * high

fields_of :
    (p d s high : ℕ)
    → p < 4
    → d < 4
    → s < 4
    → let c = p + 4 * d + 16 * s + 64 * high in
      (data_field c ≡ d) × (parity_field c ≡ p) × (stop_field c ≡ s)
unfolding data_field parity_field stop_field
fields_of p d s high hp hd hs = omega arith

parity_bits-back : (p : ℕ) → p ≤ 2 → (parity_bits p < 4) × (decode_parity (parity_bits p) ≡ p)
unfolding decode_parity
parity_bits-back p h = ground arith

stop_bits-back :
    (s : ℕ) → (s ≡ 10) ⊎ (s ≡ 15) ⊎ (s ≡ 20) → (stop_bits s < 4) × (decode_stop (stop_bits s) ≡ s)
unfolding decode_stop
stop_bits-back s h = ground arith

-- Each documented framing is read back from its bitmap, whatever the bits above.
pub decode_serial_config-encode :
    (f : Framing) (high : ℕ) → IsFraming f → decode_serial_config (encode f high) ≡ f
unfolding decode_serial_config
decode_serial_config-encode f high v =
    let p = parity_bits-back f.parity v.a_parity in
    let s = stop_bits-back f.stop_bits_x10 v.a_stop in
    let c =
      fields_of (parity_bits f.parity) (f.data_bits - 5) (stop_bits f.stop_bits_x10) high p.0
        (omega (arith, v.bits_from, v.bits_to)) s.0 in
    let d : 5 + (f.data_bits - 5) ≡ f.data_bits = omega (arith, v.bits_from) in
    rw (c.0, c.1, c.2) (λ i. record { data_bits = d i; parity = p.1 i; stop_bits_x10 = s.1 i })
