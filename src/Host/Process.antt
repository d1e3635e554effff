-- ===== src/Host/Process.antt =====
-- The state of a process that uses the library: the HAL's globals, the singleton, and the
-- instances, which are addressed by number. The closures that create registers with the HAL
-- capture their instance, so here a HAL callback is the number of an instance.
use bit_magic_zi_modem.Base.{
  ℕ, Bool, false, Option, none, some, List, [], ◌∷◌, ◌++◌, ◌==◌, if◌then◌else◌,
}
use bit_magic_zi_modem.Base.Int.{ℤ, to_int}
use bit_magic_zi_modem.SerialPort.{Serial, Event, data_ready, line_changed}
use bit_magic_zi_modem.SerialPort as Port
use bit_magic_zi_modem.SerialPort.Line.{Begin, begin}
use bit_magic_zi_modem.Pins.{Pins, Signal, signal}
use bit_magic_zi_modem.Pins as Gpio
use bit_magic_zi_modem.Host.LineConfig.{decode_serial_config}

-- Where the background thread stands: not started, in setup(), at the test of `running`, in
-- loop(), or at its end.
pub data Worker : Type 0 where
  idle setting_up testing looping ended : Worker

-- `zimodem_instance`. A function pointer is a number, `none` if null. `locked`: a thread holds
-- callback_mutex. The steps of Host/Threads lock and unlock it. In Host/Calls a callback runs
-- inside of the step that raises it, so that the mutex is free between the steps.
pub record Instance : Type 0 where
  pub started : Bool
  pub running : Bool
  pub worker : Worker
  pub locked : Bool
  pub on_serial_out : Option ℕ
  pub on_signal : Option ℕ
  pub on_log : Option ℕ
  pub on_line_config : Option ℕ
  pub user_context : ℕ

abbrev pub new_instance : Instance
new_instance = record {
  started = false;
  running = false;
  worker = idle;
  locked = false;
  on_serial_out = none;
  on_signal = none;
  on_log = none;
  on_line_config = none;
  user_context = 0;
}

-- `instances` is the heap; `net_uses` counts WSAStartup less WSACleanup.
pub record Process : Type 0 where
  pub serial : Serial ℕ
  pub pins : Pins ℕ
  pub log_sink : Option ℕ
  pub root : List ℕ
  pub active : Option ℕ
  pub instances : ℕ → Option Instance
  pub net_uses : ℕ

-- The calls that the host application receives, each with its user context.
pub data Out : Type 0 where
  serial_out : ℕ → ℕ → Out
  signal_out : ℕ → ℕ → ℤ → ℤ → Out
  log_out : ℕ → ℕ → List ℕ → Out
  line_config_out : ℕ → ℕ → ℤ → ℕ → ℕ → ℕ → Out

-- A step goes through, reads a freed instance, or waits for a mutex that its own thread holds.
pub data Result {ℓ} (A : Type ℓ) : Type ℓ where
  ok : A → Result A
  dangling deadlock : Result A

abbrev pub and_then {ℓ κ} : {A : Type ℓ} {B : Type κ} → Result A → (A → Result B) → Result B
and_then (ok a) f = f a
and_then dangling f = dangling
and_then deadlock f = deadlock

abbrev pub update : (ℕ → Option Instance) → ℕ → Option Instance → ℕ → Option Instance
update heap id inst j = if j == id then inst else heap j

-- `if (inst->on_serial_out) inst->on_serial_out(inst->user_context);` and its like.
abbrev pub call_serial_out : Option ℕ → ℕ → List Out
call_serial_out none ctx = []
call_serial_out (some cb) ctx = serial_out cb ctx ∷ []

abbrev pub call_signal : Option ℕ → ℕ → ℤ → ℤ → List Out
call_signal none ctx pin value = []
call_signal (some cb) ctx pin value = signal_out cb ctx pin value ∷ []

abbrev pub call_log : Option ℕ → ℕ → List ℕ → List Out
call_log none ctx message = []
call_log (some cb) ctx message = log_out cb ctx message ∷ []

abbrev pub call_line_config : Option ℕ → ℕ → ℕ → ℕ → List Out
call_line_config none ctx baud config = []
call_line_config (some cb) ctx baud config =
    let f = decode_serial_config config in
    line_config_out cb ctx (to_int baud) f.data_bits f.parity f.stop_bits_x10 ∷ []

-- What a body does with the instance once it holds callback_mutex.
abbrev pub under_lock : Option Instance → (Instance → List Out) → Result (List Out)
under_lock none body = dangling
under_lock (some inst) body = if inst.locked then deadlock else ok (body inst)

module _ (heap : ℕ → Option Instance) where
  -- The three closures that call out with the mutex held.
  unfoldable pub on_data_ready : ℕ → Result (List Out)
  on_data_ready id =
      under_lock (heap id) (λ inst. call_serial_out inst.on_serial_out inst.user_context)

  unfoldable pub on_pin_signal : ℕ → ℤ → ℤ → Result (List Out)
  on_pin_signal id pin value =
      under_lock (heap id) (λ inst. call_signal inst.on_signal inst.user_context pin value)

  unfoldable pub log : ℕ → List ℕ → Result (List Out)
  log id message = under_lock (heap id) (λ inst. call_log inst.on_log inst.user_context message)

  -- This one copies the callback under the mutex and calls it behind.
  unfoldable pub on_line_changed : ℕ → ℕ → ℕ → Result (List Out)
  on_line_changed id baud config =
      under_lock (heap id)
        (λ inst. call_line_config inst.on_line_config inst.user_context baud config)

  unfoldable pub deliver_event : Event ℕ → Result (List Out)
  unfolding on_data_ready on_line_changed
  deliver_event (data_ready id) = on_data_ready id
  deliver_event (line_changed id baud config) = on_line_changed id baud config

  unfoldable pub deliver_events : List (Event ℕ) → Result (List Out)
  unfolding deliver_event
  deliver_events [] = ok []
  deliver_events (e ∷ es) =
      and_then (deliver_event e) (λ a. and_then (deliver_events es) (λ b. ok (a ++ b)))

  unfoldable pub deliver_signals : List (Signal ℕ) → Result (List Out)
  unfolding on_pin_signal
  deliver_signals [] = ok []
  deliver_signals (signal id pin value ∷ es) =
      and_then (on_pin_signal id pin value) (λ a. and_then (deliver_signals es) (λ b. ok (a ++ b)))

  -- zimodem_hal::log::write with the sink that create registered.
  unfoldable pub write_log : Option ℕ → List ℕ → Result (List Out)
  unfolding log
  write_log none message = ok []
  write_log (some id) message = log id message

-- What the firmware does to the HAL from setup() or loop().
pub data Firmware : Type 0 where
  prints : List ℕ → Firmware
  reads : Firmware
  writes_pin : ℤ → ℤ → Firmware
  begins : Begin → Firmware
  logs : List ℕ → Firmware

unfoldable pub firmware_step : Process → Firmware → Result (List Out × Process)
unfolding deliver_events deliver_signals write_log Port.write Port.read Gpio.digital_write begin
firmware_step p (prints bytes) =
    let r = Port.write p.serial bytes in
    and_then (deliver_events p.instances r.1) (λ out. ok (out, record p { serial = r.2 }))
firmware_step p reads = ok ([], record p { serial = (Port.read p.serial).1 })
firmware_step p (writes_pin pin value) =
    let r = Gpio.digital_write p.pins pin value in
    and_then (deliver_signals p.instances r.0) (λ out. ok (out, record p { pins = r.1 }))
firmware_step p (begins b) =
    let r = begin p.serial b in
    and_then (deliver_events p.instances r.0) (λ out. ok (out, record p { serial = r.1 }))
firmware_step p (logs message) =
    and_then (write_log p.instances p.log_sink message) (λ out. ok (out, p))
