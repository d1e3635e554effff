-- ===== src/SerialPort/Hardware.antt =====
-- HardwareSerialCompat of HardwareSerial.h: an object of the sketch over the one serial port. The
-- object itself keeps a timeout only.
use bit_magic_zi_modem.Base.{ℕ, Option, List, [], ◌∷◌}
use bit_magic_zi_modem.Base.Int.{ℤ}
use bit_magic_zi_modem.SerialPort.{Serial, Event}
use bit_magic_zi_modem.SerialPort as Port
use bit_magic_zi_modem.SerialPort.ReadBytes.{Moment, read_bytes}

pub record Hardware : Type 0 where
  pub timeout_ms : ℕ

abbrev pub new_hardware : Hardware
new_hardware = record { timeout_ms = 1000 }

unfoldable pub set_timeout : Hardware → ℕ → Hardware
set_timeout h ms = record h { timeout_ms = ms }

-- Not acted on: the queues are unbounded.
unfoldable pub set_rx_buffer_size : Hardware → ℕ → Hardware
set_rx_buffer_size h size = h

module _ {C : Type 0} where
  unfoldable pub hardware_available : Serial C → ℤ
  unfolding Port.available
  hardware_available s = Port.available s

  unfoldable pub hardware_read : Serial C → ℤ × Serial C
  unfolding Port.read
  hardware_read s = Port.read s

  unfoldable pub hardware_peek : Serial C → ℤ
  unfolding Port.peek
  hardware_peek s = Port.peek s

  unfoldable pub write_byte : Serial C → ℕ → ℕ × List (Event C) × Serial C
  unfolding Port.write
  write_byte s b = Port.write s (b ∷ [])

  unfoldable pub hardware_available_for_write : Serial C → ℕ
  unfolding Port.available_for_write
  hardware_available_for_write s = Port.available_for_write s

  unfoldable pub hardware_flush : Serial C → Serial C
  hardware_flush s = s

  -- readBytes with the object's timeout; `w` is the width of unsigned long.
  unfoldable pub hardware_read_bytes :
      (w : ℕ) → Hardware → ℕ → List Moment → Serial C → ℕ → Option (List ℕ × Serial C × ℕ)
  unfolding read_bytes
  hardware_read_bytes w h size ms s t = read_bytes w h.timeout_ms size ms s t
