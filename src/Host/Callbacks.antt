-- ===== src/Host/Callbacks.antt =====
-- The closures of create, called by the HAL while the firmware runs.
use bit_magic_zi_modem.Base.{
  ℕ, ◌≡◌, refl, sym, subst, All, ◌∙◌, Bool, true, false, Option, none, some, List, [], ◌∷◌, ◌++◌,
  ◌==◌, ltb, length, ◌&&◌, inl, inr, Bool-cases,
}
use bit_magic_zi_modem.Base.Int.{ℤ}
use bit_magic_zi_modem.SerialPort.{
  Serial, Event, data_ready, line_changed, initial, set_data_ready_callback,
  set_line_config_callback, feed_input, rx_read, wake,
}
use bit_magic_zi_modem.SerialPort as Port
use bit_magic_zi_modem.SerialPort.Line.{Begin, begin, baud_only, baud_config}
use bit_magic_zi_modem.Pins.{Pins, Signal, signal, set_signal_callback, digital_write}
use bit_magic_zi_modem.Pins as Gpio
use bit_magic_zi_modem.Host.Process.{
  Instance, Process, Out, ok, and_then, deliver_events, deliver_signals, write_log, Firmware,
  prints, reads, writes_pin, begins, logs, firmware_step, under_lock, call_serial_out, call_signal,
  call_log, call_line_config,
}
use bit_magic_zi_modem.Host.Lifetime.{
  IsValid, Fine, fine, Kept, active_instance, serial-IsValid, pins-IsValid,
}

pub under_lock-ok :
    (p : Process) (id : ℕ) (body : Instance → List Out)
    → IsValid p
    → p.active ≡ some id
    → (out : List Out) × (under_lock (p.instances id) body ≡ ok out)
under_lock-ok p id body v e = let a = active_instance p id v e in (body a.0, rw (a.1, a.2))

abbrev pub Calls : Option ℕ → Event ℕ → Type 0
Calls o (data_ready id) = o ≡ some id
Calls o (line_changed id baud config) = o ≡ some id

deliver_events-ok :
    (p : Process) (es : List (Event ℕ))
    → IsValid p
    → All (Calls p.active) es
    → (out : List Out) × (deliver_events p.instances es ≡ ok out)
unfolding deliver_events
deliver_events-ok p [] v h = ([], refl)
deliver_events-ok p (data_ready id ∷ es) v h =
    let a =
      under_lock-ok p id (λ inst. call_serial_out inst.on_serial_out inst.user_context) v h.0 in
    let b = deliver_events-ok p es v h.1 in (a.0 ++ b.0, rw (a.1, b.1))
deliver_events-ok p (line_changed id baud config ∷ es) v h =
    let a =
      under_lock-ok p id
        (λ inst. call_line_config inst.on_line_config inst.user_context baud config) v h.0 in
    let b = deliver_events-ok p es v h.1 in (a.0 ++ b.0, rw (a.1, b.1))

abbrev pub Signals : Option ℕ → Signal ℕ → Type 0
Signals o (signal id pin value) = o ≡ some id

pub deliver_signals-ok :
    (p : Process) (es : List (Signal ℕ))
    → IsValid p
    → All (Signals p.active) es
    → (out : List Out) × (deliver_signals p.instances es ≡ ok out)
unfolding deliver_signals
deliver_signals-ok p [] v h = ([], refl)
deliver_signals-ok p (signal id pin value ∷ es) v h =
    let a =
      under_lock-ok p id (λ inst. call_signal inst.on_signal inst.user_context pin value) v h.0 in
    let b = deliver_signals-ok p es v h.1 in (a.0 ++ b.0, rw (a.1, b.1))

wake-Calls : (o : Option ℕ) (xs : List ℕ) → All (Calls o) (wake o xs)
wake-Calls none xs = tt
wake-Calls (some id) xs = elim (Bool-cases (ltb 0 (length xs))) [
  | inl e ↦ rw e (refl, tt)
  | inr e ↦ rw e tt
]

notify-Calls : (o : Option ℕ) (baud config : ℕ) → All (Calls o) (Port.notify o baud config)
notify-Calls none baud config = tt
notify-Calls (some id) baud config = (refl, tt)

pub notify-Signals :
    (o : Option ℕ) (b : Bool) (pin value : ℤ) → All (Signals o) (Gpio.notify o b pin value)
notify-Signals none b pin value = tt
notify-Signals (some id) true pin value = (refl, tt)
notify-Signals (some id) false pin value = tt

begin-Calls :
    (s : Serial ℕ) (b : Begin)
    → All (Calls s.line_config_callback) (begin s b).0
      × ((begin s b).1.data_ready_callback ≡ s.data_ready_callback)
      × ((begin s b).1.line_config_callback ≡ s.line_config_callback)
unfolding begin
begin-Calls s (baud_only baud) = elim (Bool-cases (s.line_baud == baud)) [
  | inl e ↦ rw e (tt, refl, refl)
  | inr e ↦ rw e (notify-Calls s.line_config_callback baud s.line_config, refl, refl)
]
begin-Calls s (baud_config baud config) =
    elim (Bool-cases (s.line_baud == baud && s.line_config == config)) [
      | inl e ↦ rw e (tt, refl, refl)
      | inr e ↦ rw e (notify-Calls s.line_config_callback baud config, refl, refl)
    ]

-- Whatever the firmware does, no callback reaches a freed instance or waits for a held mutex.
pub firmware_step-Kept :
    (p : Process) (a : Firmware)
    → IsValid p
    → Fine {A = List Out × Process} (λ r. Kept p.active r.1) (firmware_step p a)
unfolding firmware_step
firmware_step-Kept p (prints bytes) v =
    let d = deliver_events-ok p (wake p.serial.data_ready_callback bytes) v (
      subst (λ o. All (Calls o) (wake p.serial.data_ready_callback bytes)) v.ready
        (wake-Calls p.serial.data_ready_callback bytes)) in
    rw d.1 (fine _ (serial-IsValid p _ refl refl v, refl))
firmware_step-Kept p reads v = fine _ (serial-IsValid p _ refl refl v, refl)
firmware_step-Kept p (writes_pin pin value) v =
    let d = deliver_signals-ok p (digital_write p.pins pin value).0 v (
      subst (λ o. All (Signals o) (digital_write p.pins pin value).0) v.pin
        (unfold digital_write in notify-Signals p.pins.callback _ pin value)) in
    rw d.1 (fine _ (pins-IsValid p _ refl v, refl))
firmware_step-Kept p (begins b) v =
    let c = begin-Calls p.serial b in
    let d =
      deliver_events-ok p (begin p.serial b).0 v
        (subst (λ o. All (Calls o) (begin p.serial b).0) v.line c.0) in
    rw d.1 (fine _ (serial-IsValid p _ c.1 c.2 v, refl))
firmware_step-Kept p (logs message) v = go p.log_sink refl
  where
    go :
        (o : Option ℕ)
        → p.log_sink ≡ o
        → Fine {A = List Out × Process}
            (λ r. Kept p.active r.1)
            (and_then (write_log p.instances o message) (λ out. ok (out, p)))
    go none e = fine _ (v, refl)
    go (some id) e =
        let d =
          under_lock-ok p id (λ inst. call_log inst.on_log inst.user_context message) v
            (sym v.sink ∙ e) in
        rw d.1 (fine _ (v, refl))
