-- ===== src/Arduino/Wiring.antt =====
-- The clock and pin functions of Arduino.h, over timing.cpp and pins.cpp. A pin and a value are of
-- 8 bits, a delay of 32, and `w` is the width of unsigned long.
use bit_magic_zi_modem.Base.{ℕ, ◌%◌, ◌^◌, List}
use bit_magic_zi_modem.Base.Int.{ℤ, pos}
use bit_magic_zi_modem.Pins.{Pins, Signal, pin_mode, digital_write, digital_read}
use bit_magic_zi_modem.Timing.{Timing, now_ms, sleep_ms}

module _ {W : Type 0} (w : ℕ) where
  unfoldable pub millis : Timing W → (W → ℕ × W) → W → ℕ × W
  unfolding now_ms
  millis t real_now_ms s = let r = now_ms t real_now_ms s in (r.0 % 2 ^ w, r.1)

module _ {W : Type 0} where
  unfoldable pub delay : Timing W → (ℕ → W → W) → ℕ → W → W
  unfolding sleep_ms
  delay t real_sleep_ms ms s = sleep_ms t real_sleep_ms (ms % 2 ^ 32) s

module _ {C : Type 0} where
  unfoldable pub wired_pin_mode : Pins C → ℕ → ℕ → Pins C
  unfolding pin_mode
  wired_pin_mode p pin mode = pin_mode p (pos (pin % 2 ^ 8)) (pos (mode % 2 ^ 8))

  unfoldable pub wired_digital_write : Pins C → ℕ → ℕ → List (Signal C) × Pins C
  unfolding digital_write
  wired_digital_write p pin value = digital_write p (pos (pin % 2 ^ 8)) (pos (value % 2 ^ 8))

  unfoldable pub wired_digital_read : Pins C → ℕ → ℤ
  unfolding digital_read
  wired_digital_read p pin = digital_read p (pos (pin % 2 ^ 8))
