-- ===== src/Host/Threads.antt =====
-- zimodem_host.cpp at the grain of its locks: thread 0 is the background thread, the others are
-- threads of the host application. A call of the HAL that raises a callback does its work under the
-- HAL's mutex and copies the callback, and calls it behind; the callback then takes callback_mutex,
-- and holds it while the host's function runs. In between any other thread may run.
pub mod Calm
pub mod Crossing
pub mod Wired
pub mod Raised
pub mod Invariant
pub mod Stopping
pub mod Progress
pub mod Endings
pub mod Nearer
pub mod Bound
pub mod Races
pub mod Orders
pub mod Reentry
mod Tests
use bit_magic_zi_modem.Base.{
  ℕ, ◌≡◌, ◌≢◌, ◌<◌, Bool, true, false, Option, none, some, List, [], ◌∷◌, ◌==◌, if◌then◌else◌,
}
use bit_magic_zi_modem.Base.Int.{ℤ}
use bit_magic_zi_modem.SerialPort.{Event, data_ready, line_changed}
use bit_magic_zi_modem.SerialPort as Port
use bit_magic_zi_modem.SerialPort.Line.{Begin, begin}
use bit_magic_zi_modem.Pins.{Signal, signal}
use bit_magic_zi_modem.Pins as Gpio
use bit_magic_zi_modem.Host.Process.{
  Worker, idle, setting_up, testing, looping, ended, Instance, Process, Firmware, prints, reads,
  writes_pin, begins, logs,
}
use bit_magic_zi_modem.Host.Abi.{
  Callbacks, create_made, install, put, write_serial, host_rx_read, request_stop, release,
  is_joined,
}
use bit_magic_zi_modem.Host.Worker.{stopped}

-- A call of a closure that a thread still has to make, with the instance that it captured.
pub data Delivery : Type 0 where
  readies : ℕ → Delivery
  signals : ℕ → ℤ → ℤ → Delivery
  lines : ℕ → ℕ → ℕ → Delivery
  says : ℕ → List ℕ → Delivery

abbrev pub target : Delivery → ℕ
target (readies id) = id
target (signals id pin value) = id
target (lines id baud config) = id
target (says id message) = id

-- Where a thread stands: outside of the library or in the firmware; between the HAL's mutex and the
-- closure; in a callback, with the instance's callback_mutex; there, at a second lock of the same
-- mutex, which it never gets; in the join of destroy; or behind a lock of a mutex that was freed.
pub data Pc : Type 0 where
  resting : Pc
  owes : Delivery → Pc
  holds : ℕ → Pc
  waits : ℕ → Pc
  joins : ℕ → Pc
  faulted : Pc

pub record System : Type 0 where
  pub process : Process
  pub pc : ℕ → Pc

-- What a call of the HAL leaves its thread to do: it raises one callback at most.
abbrev pub owed_event : List (Event ℕ) → Pc
owed_event [] = resting
owed_event (data_ready id ∷ es) = owes (readies id)
owed_event (line_changed id baud config ∷ es) = owes (lines id baud config)

abbrev pub owed_signal : List (Signal ℕ) → Pc
owed_signal [] = resting
owed_signal (signal id pin value ∷ es) = owes (signals id pin value)

abbrev pub owed_log : Option ℕ → List ℕ → Pc
owed_log none message = resting
owed_log (some id) message = owes (says id message)

-- serial::write, set_line_config, pins::digital_write and log::write up to the callback.
abbrev pub serial_write : Process → List ℕ → Pc × Process
serial_write p bytes =
    let r = Port.write p.serial bytes in (owed_event r.1, record p { serial = r.2 })

abbrev pub serial_begin : Process → Begin → Pc × Process
serial_begin p b = let r = begin p.serial b in (owed_event r.0, record p { serial = r.1 })

abbrev pub pin_write : Process → ℤ → ℤ → Pc × Process
pin_write p pin value =
    let r = Gpio.digital_write p.pins pin value in (owed_signal r.0, record p { pins = r.1 })

abbrev pub log_write : Process → List ℕ → Pc × Process
log_write p message = (owed_log p.log_sink message, p)

-- The part of a firmware action under the HAL's mutex.
unfoldable pub hal : Process → Firmware → Pc × Process
unfolding Port.write Port.read Gpio.digital_write begin
hal p (prints bytes) = serial_write p bytes
hal p reads = (resting, record p { serial = (Port.read p.serial).1 })
hal p (writes_pin pin value) = pin_write p pin value
hal p (begins b) = serial_begin p b
hal p (logs message) = log_write p message

-- `run` inside a call of setup() or loop().
abbrev pub in_call : Worker → Bool
in_call idle = false
in_call setting_up = true
in_call testing = false
in_call looping = true
in_call ended = false

-- `run` where its call returns, and where it tests `running`.
abbrev pub turned : Worker → Instance → Instance
turned idle inst = inst
turned setting_up inst = record inst { worker = testing }
turned testing inst = if inst.running then record inst { worker = looping } else stopped inst
turned looping inst = record inst { worker = testing }
turned ended inst = inst

abbrev pub update {ℓ} : {A : Type ℓ} → (ℕ → A) → ℕ → A → ℕ → A
update f i a j = if j == i then a else f j

abbrev pub move : System → ℕ → Pc → Process → System
move s i x p = record { process = p; pc = update s.pc i x }

abbrev pub on_process : System → Process → System
on_process s p = record s { process = p }

-- The closure takes callback_mutex: that of the line settings gives it back before it calls the
-- host's function, the others keep it.
abbrev pub entered : System → ℕ → Delivery → Instance → System
entered s i (lines id baud config) inst = move s i resting s.process
entered s i (readies id) inst =
    move s i (holds id) (put s.process id (record inst { locked = true }))
entered s i (signals id pin value) inst =
    move s i (holds id) (put s.process id (record inst { locked = true }))
entered s i (says id message) inst =
    move s i (holds id) (put s.process id (record inst { locked = true }))

-- set_pin from inside of a callback that holds the mutex: where it changes the pin, its thread goes
-- on to the lock that it already has.
abbrev pub nested : ℕ → Pc → Pc
nested id resting = holds id
nested id (owes d) = waits id
nested id (holds k) = holds id
nested id (waits k) = holds id
nested id (joins k) = holds id
nested id faulted = holds id

-- A careful host makes no call of set_pin or set_callbacks inside of a callback that runs under
-- callback_mutex, calls no function of the library while a destroy runs, and destroys the instance
-- while none of its own threads is in the library. The functions for the serial port are free of
-- all three. on_line_config runs without the mutex, and its thread is at rest here while it does: a
-- set_pin inside of it is the step `acts` with `writes_pin`.
abbrev pub MayCall : Bool → System → Type 0
MayCall careful s = careful ≡ true → (j id : ℕ) → s.pc j ≢ joins id

abbrev pub MayDestroy : Bool → System → Type 0
MayDestroy careful s = careful ≡ true → (j : ℕ) → 0 < j → s.pc j ≡ resting

-- The functions for the serial port touch neither the instance nor its mutex, and are free to any
-- thread at any time, also in a callback. A failing create changes nothing that a thread reads. A
-- thread that throws sets `running` behind its message; nobody reads it in between. A host that is
-- not careful may call set_pin and set_callbacks inside of a callback (`nests_pin`,
-- `nests_callbacks`; they are also there where the function pointer is null, which only adds
-- steps). No host here calls start, create or destroy inside of any callback.
pub data Step (careful : Bool) (s : System) : System → Type 0 where
  creates :
      (dir : List ℕ) (id : ℕ)
      → s.process.active ≡ none
      → Step careful s
          (on_process s (create_made (record s.process { root = dir }) true (some id)).1)
  sets_callbacks :
      (i id : ℕ) (inst : Instance) (c : Callbacks)
      → 0 < i
      → s.pc i ≡ resting
      → s.process.instances id ≡ some inst
      → inst.locked ≡ false
      → MayCall careful s
      → Step careful s (on_process s (put s.process id (install c inst)))
  starts :
      (i id : ℕ) (inst : Instance)
      → 0 < i
      → s.pc i ≡ resting
      → s.process.instances id ≡ some inst
      → inst.started ≡ false
      → MayCall careful s
      → Step careful s (
          on_process s (
            put s.process id (record inst { started = true; running = true; worker = setting_up })))
  feeds :
      (bytes : List ℕ)
      → Step careful s (on_process s (write_serial s.process s.process.active bytes).1)
  takes : Step careful s (on_process s (host_rx_read s.process s.process.active).1)
  sets_pin :
      (i : ℕ) (pin value : ℤ)
      → 0 < i
      → s.pc i ≡ resting
      → MayCall careful s
      → Step careful s (
          move s i
            (hal s.process (writes_pin pin value)).0
            (hal s.process (writes_pin pin value)).1)
  acts :
      (id : ℕ) (inst : Instance) (a : Firmware)
      → s.pc 0 ≡ resting
      → s.process.instances id ≡ some inst
      → in_call inst.worker ≡ true
      → Step careful s (move s 0 (hal s.process a).0 (hal s.process a).1)
  turns :
      (id : ℕ) (inst : Instance)
      → s.pc 0 ≡ resting
      → s.process.instances id ≡ some inst
      → is_joined inst.worker ≡ false
      → Step careful s (on_process s (put s.process id (turned inst.worker inst)))
  throws :
      (id : ℕ) (inst : Instance) (message : List ℕ)
      → s.pc 0 ≡ resting
      → s.process.instances id ≡ some inst
      → in_call inst.worker ≡ true
      → Step careful s (move s 0 (owes (says id message)) (put s.process id (stopped inst)))
  calls :
      (i : ℕ) (d : Delivery) (inst : Instance)
      → s.pc i ≡ owes d
      → s.process.instances (target d) ≡ some inst
      → inst.locked ≡ false
      → Step careful s (entered s i d inst)
  dangles :
      (i : ℕ) (d : Delivery)
      → s.pc i ≡ owes d
      → s.process.instances (target d) ≡ none
      → Step careful s (move s i faulted s.process)
  returns :
      (i id : ℕ) (inst : Instance)
      → s.pc i ≡ holds id
      → s.process.instances id ≡ some inst
      → Step careful s (move s i resting (put s.process id (record inst { locked = false })))
  nests_pin :
      (i id : ℕ) (pin value : ℤ)
      → s.pc i ≡ holds id
      → s.process.pins.callback ≡ some id
      → careful ≡ false
      → Step careful s (
          move s i
            (nested id (hal s.process (writes_pin pin value)).0)
            (hal s.process (writes_pin pin value)).1)
  nests_callbacks :
      (i id : ℕ)
      → s.pc i ≡ holds id
      → careful ≡ false
      → Step careful s (move s i (waits id) s.process)
  stops :
      (i id : ℕ) (inst : Instance)
      → 0 < i
      → s.pc i ≡ resting
      → s.process.active ≡ some id
      → s.process.instances id ≡ some inst
      → MayDestroy careful s
      → Step careful s (move s i (joins id) (request_stop s.process id inst))
  releases :
      (i id : ℕ) (inst : Instance)
      → s.pc i ≡ joins id
      → s.pc 0 ≡ resting
      → s.process.instances id ≡ some inst
      → is_joined inst.worker ≡ true
      → Step careful s (move s i resting (release s.process id))

pub data Reach (careful : Bool) (s : System) : System → Type 0 where
  here : Reach careful s s
  next : {t u : System} → Reach careful s t → Step careful t u → Reach careful s u
