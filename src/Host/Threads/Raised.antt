-- ===== src/Host/Threads/Raised.antt =====
-- The calls of the HAL against the closures, and the callback that each raises.
use bit_magic_zi_modem.Base.{
  ◌&&◌, ltb, length, ℕ, ◌≡◌, refl, sym, ◌∙◌, inl, inr, Bool, true, false, Option, none, some, List,
  ◌==◌, Bool-cases,
}
use bit_magic_zi_modem.Base.Int.{ℤ}
use bit_magic_zi_modem.SerialPort.{
  set_data_ready_callback, set_line_config_callback, set_line_config, set_line_baud, feed_input,
  rx_read,
}
use bit_magic_zi_modem.SerialPort as Port
use bit_magic_zi_modem.SerialPort.Line.{Begin, baud_only, baud_config, begin}
use bit_magic_zi_modem.Pins.{set_signal_callback}
use bit_magic_zi_modem.Pins as Gpio
use bit_magic_zi_modem.Host.Process.{Process, Firmware, prints, reads, writes_pin, begins, logs}
use bit_magic_zi_modem.Host.Abi.{write_serial, host_rx_read}
use bit_magic_zi_modem.Host.Threads.{
  readies, signals, lines, says, hal, owed_event, owed_signal, owed_log,
}
use bit_magic_zi_modem.Host.Threads.Calm.{IsPlain, rests, owing}
use bit_magic_zi_modem.Host.Threads.Wired.{IsWired, lock_of}

-- A call of the HAL raises at most one callback, of the active instance.
module _ (a : Option ℕ) where
  wake-IsPlain :
      (cb : Option ℕ) (bytes : List ℕ) → cb ≡ a → IsPlain a (owed_event (Port.wake cb bytes))
  wake-IsPlain none bytes e = rests
  wake-IsPlain (some id) bytes e = elim (Bool-cases (ltb 0 (length bytes))) [
    | inl q ↦ rw q (owing (readies id) (sym e))
    | inr q ↦ rw q rests
  ]

  line-IsPlain :
      (cb : Option ℕ) (baud config : ℕ)
      → cb ≡ a
      → IsPlain a (owed_event (Port.notify cb baud config))
  line-IsPlain none baud config e = rests
  line-IsPlain (some id) baud config e = owing (lines id baud config) (sym e)

  signal-IsPlain :
      (cb : Option ℕ) (changed : Bool) (pin value : ℤ)
      → cb ≡ a
      → IsPlain a (owed_signal (Gpio.notify cb changed pin value))
  signal-IsPlain none changed pin value e = rests
  signal-IsPlain (some id) false pin value e = rests
  signal-IsPlain (some id) true pin value e = owing (signals id pin value) (sym e)

  log-IsPlain : (cb : Option ℕ) (message : List ℕ) → cb ≡ a → IsPlain a (owed_log cb message)
  log-IsPlain none message e = rests
  log-IsPlain (some id) message e = owing (says id message) (sym e)

  begin-IsPlain :
      (s : Port.Serial ℕ) (b : Begin)
      → s.line_config_callback ≡ a
      → IsPlain a (owed_event (begin s b).0)
  unfolding begin set_line_config set_line_baud
  begin-IsPlain s (baud_only baud) e = elim (Bool-cases (s.line_baud == baud)) [
    | inl q ↦ rw q rests
    | inr q ↦ rw q (line-IsPlain s.line_config_callback baud s.line_config e)
  ]
  begin-IsPlain s (baud_config baud config) e =
      elim (Bool-cases (s.line_baud == baud && s.line_config == config)) [
        | inl q ↦ rw q rests
        | inr q ↦ rw q (line-IsPlain s.line_config_callback baud config e)
      ]

-- begin keeps the callbacks.
begin_callbacks :
    (s : Port.Serial ℕ) (b : Begin)
    → ((begin s b).1.data_ready_callback ≡ s.data_ready_callback)
      × ((begin s b).1.line_config_callback ≡ s.line_config_callback)
unfolding begin set_line_config set_line_baud
begin_callbacks s (baud_only baud) = elim (Bool-cases (s.line_baud == baud)) [
  | inl q ↦ rw q (refl, refl)
  | inr q ↦ rw q (refl, refl)
]
begin_callbacks s (baud_config baud config) =
    elim (Bool-cases (s.line_baud == baud && s.line_config == config)) [
      | inl q ↦ rw q (refl, refl)
      | inr q ↦ rw q (refl, refl)
    ]

-- Another port or pin table with the same callbacks.
serial-IsWired :
    (p : Process) (s : Port.Serial ℕ)
    → s.data_ready_callback ≡ p.serial.data_ready_callback
    → s.line_config_callback ≡ p.serial.line_config_callback
    → IsWired p
    → IsWired (record p { serial = s })
serial-IsWired p s a b w = record {
  ready = a ∙ w.ready;
  line = b ∙ w.line;
  pin = w.pin;
  sink = w.sink;
  live = w.live;
}

-- The part of a firmware action under the HAL's mutex keeps the closures, and leaves its thread at
-- rest or with a call of the active instance's.
pub hal-IsPlain : (p : Process) (a : Firmware) → IsWired p → IsPlain p.active (hal p a).0
unfolding hal Port.write Gpio.digital_write
hal-IsPlain p (prints bytes) w = wake-IsPlain p.active _ bytes w.ready
hal-IsPlain p reads w = rests
hal-IsPlain p (writes_pin pin value) w = signal-IsPlain p.active _ _ pin value w.pin
hal-IsPlain p (begins b) w = begin-IsPlain p.active p.serial b w.line
hal-IsPlain p (logs message) w = log-IsPlain p.active _ message w.sink

pub hal-IsWired :
    (p : Process) (a : Firmware)
    → IsWired p
    → IsWired (hal p a).1 × ((hal p a).1.active ≡ p.active) × (lock_of (hal p a).1 ≡ lock_of p)
unfolding hal Port.write Port.read Gpio.digital_write
hal-IsWired p (prints bytes) w = (serial-IsWired p _ refl refl w, refl, refl)
hal-IsWired p reads w = (serial-IsWired p _ refl refl w, refl, refl)
hal-IsWired p (writes_pin pin value) w = (
  record { ready = w.ready; line = w.line; pin = w.pin; sink = w.sink; live = w.live },
  refl,
  refl,
)
hal-IsWired p (begins b) w =
    let c = begin_callbacks p.serial b in (serial-IsWired p _ c.0 c.1 w, refl, refl)
hal-IsWired p (logs message) w = (w, refl, refl)

-- The functions for the serial port touch neither closures nor instances.
pub feed-IsWired :
    (p : Process) (o : Option ℕ) (bytes : List ℕ)
    → IsWired p
    → IsWired (write_serial p o bytes).1
      × ((write_serial p o bytes).1.active ≡ p.active)
      × (lock_of (write_serial p o bytes).1 ≡ lock_of p)
unfolding write_serial feed_input
feed-IsWired p none bytes w = (w, refl, refl)
feed-IsWired p (some id) bytes w = (serial-IsWired p _ refl refl w, refl, refl)

pub take-IsWired :
    (p : Process) (o : Option ℕ)
    → IsWired p
    → IsWired (host_rx_read p o).1
      × ((host_rx_read p o).1.active ≡ p.active)
      × (lock_of (host_rx_read p o).1 ≡ lock_of p)
unfolding host_rx_read rx_read
take-IsWired p none w = (w, refl, refl)
take-IsWired p (some id) w = (serial-IsWired p _ refl refl w, refl, refl)
