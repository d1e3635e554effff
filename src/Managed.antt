-- ===== src/Managed.antt =====
-- ZiModemDevice.cs, the managed wrapper over the exported functions of zimodem_host.cpp. An object
-- is a number; a delegate is the number of the native handle that its object holds, which is all
-- that the delegates read of it. A call returns the exception that it throws, if it does, and the
-- events that the object raises.
pub mod Draining
pub mod Held
pub mod Methods
pub mod Laws
pub mod Lines
pub mod Again
mod Tests
use bit_magic_zi_modem.Base.{
  ℕ, zero, suc, ◌+◌, Bool, true, false, not, Option, none, some, List, [], ◌∷◌, ◌++◌, ◌==◌,
  if◌then◌else◌, length,
}
use bit_magic_zi_modem.Base.Int.{ℤ, pos, negsuc, ◌==ℤ◌}
use bit_magic_zi_modem.Host.Process.{
  Process, Out, serial_out, signal_out, log_out, line_config_out, Result, ok, and_then, Firmware,
  firmware_step,
}
use bit_magic_zi_modem.Host.Abi.{
  Callbacks, Created, null, handle, threw, LineAnswer, create, set_callbacks, start, write_serial,
  host_rx_available, host_rx_read, set_pin, host_get_line_config,
}
use bit_magic_zi_modem.Host.Worker.{Outcome, destroy}
use bit_magic_zi_modem.Host.Calls.{of_thread}

-- `_handle`, `_started` and `_disposed`.
pub record Device : Type 0 where
  pub native : ℕ
  pub started : Bool
  pub disposed : Bool

pub data Thrown : Type 0 where
  argument invalid_operation object_disposed : Thrown

pub data Event : Type 0 where
  serial_data_received : List ℕ → Event
  signal_changed : ℤ → Bool → Event
  log_raised : List ℕ → Event
  line_config_changed : ℤ → ℕ → ℕ → ℕ → Event

-- The process, and the objects that were constructed: their numbers are below `next`.
pub record Managed : Type 0 where
  pub process : Process
  pub objects : ℕ → Option Device
  pub next : ℕ

pub record Answer : Type 0 where
  pub thrown : Option Thrown
  pub events : List Event
  pub managed : Managed

-- The loop of OnSerialOutNative. Nobody else takes bytes, and the thread that could add some is in
-- the callback, so that one more turn than there are bytes is enough. A byte is below 256, where
-- the cast to byte changes nothing.
abbrev pub taken : ℤ → List ℕ × Process → List ℕ × Process → List ℕ × Process
taken (pos b) rest empty = (b ∷ rest.0, rest.1)
taken (negsuc n) rest empty = empty

unfoldable pub drain : ℕ → Process → ℕ → List ℕ × Process
unfolding host_rx_available host_rx_read
drain zero p h = ([], p)
drain (suc fuel) p h =
    let r = host_rx_read p (some h) in
    let rest = drain fuel r.1 h in
    if host_rx_available p (some h) ==ℤ pos 0 then ([], p) else taken r.0 rest ([], r.1)

-- `if (buffer is { Count: > 0 })`
abbrev pub received : List ℕ → List Event
received [] = []
received (b ∷ bytes) = serial_data_received (b ∷ bytes) ∷ []

-- OnSerialOutNative, OnSignalNative, OnLogNative and OnLineConfigNative.
unfoldable pub react : Out → Process → List Event × Process
unfolding drain
react (serial_out h ctx) p =
    let r = drain (suc (length p.serial.rx_queue)) p h in (received r.0, r.1)
react (signal_out h ctx pin active) p = (signal_changed pin (not (active ==ℤ pos 0)) ∷ [], p)
react (log_out h ctx message) p = (log_raised message ∷ [], p)
react (line_config_out h ctx baud data_bits parity stop_bits_x10) p =
    (line_config_changed baud data_bits parity stop_bits_x10 ∷ [], p)

unfoldable pub react_all : List Out → Process → List Event × Process
unfolding react
react_all [] p = ([], p)
react_all (o ∷ os) p = let r = react o p in let rest = react_all os r.1 in (r.0 ++ rest.0, rest.1)

abbrev pub set_object : Managed → ℕ → Device → (ℕ → Option Device)
set_object m k d j = if j == k then some d else m.objects j

abbrev pub returned : Managed → Answer
returned m = record { thrown = none; events = []; managed = m }

abbrev pub refused : Managed → Thrown → Answer
refused m e = record { thrown = some e; events = []; managed = m }

-- The delegates answer the callbacks that a native call or the native thread made.
abbrev pub reacted : Managed → List Out × Process → Answer
reacted m r =
    let e = react_all r.0 r.1 in
    record { thrown = none; events = e.0; managed = record m { process = e.1 } }

abbrev pub delegates : ℕ → Callbacks
delegates h = record {
  serial_out = some h;
  signal = some h;
  log = some h;
  line_config = some h;
  context = 0;
}

-- The constructor behind zimodem_host_create.
abbrev pub constructed : Managed → Created × Process → Result Answer
constructed m (null, p) = ok (refused (record m { process = p }) invalid_operation)
constructed m (threw, p) = ok (refused (record m { process = p }) invalid_operation)
constructed m (handle h, p) = and_then (set_callbacks p (some h) (delegates h)) (λ q. ok (
    returned (record {
      process = q;
      objects = set_object m m.next (record { native = h; started = false; disposed = false });
      next = m.next + 1;
    })))

-- `accessible`: Directory.CreateDirectory made the directory or found it there. Where it did, the
-- native create_directories has nothing left to do.
unfoldable pub construct : Managed → List ℕ → Bool → Option ℕ → Result Answer
unfolding create set_callbacks
construct m [] accessible memory = ok (refused m argument)
construct m (c ∷ dir) false memory = ok (refused m argument)
construct m (c ∷ dir) true memory =
    constructed m (create m.process (some (some (c ∷ dir))) true memory)

-- ThrowIfDisposed, and then the rest of a method. A number without an object is no call at all.
abbrev pub on_device : Managed → Option Device → (Device → Result Answer) → Result Answer
on_device m none body = ok (returned m)
on_device m (some d) body = if d.disposed then ok (refused m object_disposed) else body d

-- Start behind zimodem_host_start: an answer other than 0 throws.
abbrev pub start_answer : Managed → ℕ → Device → ℤ × Process → Answer
start_answer m k d r =
    if r.0 ==ℤ pos 0
    then returned
        (record m { process = r.1; objects = set_object m k (record d { started = true }) })
    else refused (record m { process = r.1 }) invalid_operation

unfoldable pub start_device : Managed → ℕ → Result Answer
unfolding start
start_device m k = on_device m (m.objects k) (λ d.
    if d.started
    then ok (refused m invalid_operation)
    else and_then (start m.process (some d.native)) (λ r. ok (start_answer m k d r)))

unfoldable pub write_device : Managed → ℕ → List ℕ → Result Answer
unfolding write_serial
write_device m k bytes =
    on_device m (m.objects k)
      (λ d. ok (returned (record m { process = (write_serial m.process (some d.native) bytes).1 })))

unfoldable pub set_device_pin : Managed → ℕ → ℤ → ℤ → Result Answer
unfolding set_pin react_all
set_device_pin m k pin state =
    on_device m (m.objects k)
      (λ d. and_then (set_pin m.process (some d.native) pin state) (λ r. ok (reacted m r)))

-- GetLineConfig, `none` where it throws.
unfoldable pub line_config : Managed → Device → Option LineAnswer
unfolding host_get_line_config
line_config m d = if d.disposed then none else some (host_get_line_config m.process (some d.native))

-- Dispose: a second call does nothing. `outcomes` are how the firmware's calls of setup() and
-- loop() end from now on.
abbrev pub dispose_device : Managed → ℕ → Device → List Outcome → Result Answer
dispose_device m k d outcomes =
    if d.disposed
    then ok (returned m)
    else and_then (destroy m.process (some d.native) outcomes) (λ r.
      ok
        (reacted (record m { objects = set_object m k (record d { disposed = true }) }) (r.1, r.2)))

abbrev pub dispose_at : Managed → ℕ → Option Device → List Outcome → Result Answer
dispose_at m k none outcomes = ok (returned m)
dispose_at m k (some d) outcomes = dispose_device m k d outcomes

unfoldable pub dispose : Managed → ℕ → List Outcome → Result Answer
unfolding destroy react_all
dispose m k outcomes = dispose_at m k (m.objects k) outcomes

-- A history: calls of the application on any object, disposed or not, steps of the background
-- thread, and what the firmware does.
pub data Use : Type 0 where
  constructs : List ℕ → Bool → Option ℕ → Use
  starts : ℕ → Use
  writes : ℕ → List ℕ → Use
  sets_pin : ℕ → ℤ → ℤ → Use
  disposes : ℕ → List Outcome → Use
  thread_moves : Outcome → Use
  acts : Firmware → Use

unfoldable pub use_once : Managed → Use → Result Answer
unfolding construct start_device write_device set_device_pin dispose firmware_step react_all
use_once m (constructs dir accessible memory) = construct m dir accessible memory
use_once m (starts k) = start_device m k
use_once m (writes k bytes) = write_device m k bytes
use_once m (sets_pin k pin state) = set_device_pin m k pin state
use_once m (disposes k outcomes) = dispose m k outcomes
use_once m (thread_moves o) =
    and_then (of_thread m.process m.process.active o) (λ r. ok (reacted m r))
use_once m (acts a) = and_then (firmware_step m.process a) (λ r. ok (reacted m r))
