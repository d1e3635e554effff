-- ===== src/Host/Calls.antt =====
-- Histories of one process: the calls of the host application, all with the handle of the active
-- instance, and between them the steps of the background thread and of the firmware.
use bit_magic_zi_modem.Base.{ℕ, Bool, Option, none, some, List, [], ◌∷◌, ◌++◌}
use bit_magic_zi_modem.Base.Int.{ℤ}
use bit_magic_zi_modem.SerialPort as Port
use bit_magic_zi_modem.Pins as Gpio
use bit_magic_zi_modem.Host.Process.{Process, Out, Result, ok, and_then, Firmware, firmware_step}
use bit_magic_zi_modem.Host.Abi.{
  Callbacks, create, set_callbacks, start, write_serial, host_rx_read, set_pin,
}
use bit_magic_zi_modem.Host.Worker.{Outcome, worker_step, destroy}

pub data Call : Type 0 where
  creates : Option (Option (List ℕ)) → Bool → Option ℕ → Call
  sets_callbacks : Callbacks → Call
  starts : Call
  feeds : List ℕ → Call
  takes : Call
  sets_pin : ℤ → ℤ → Call
  destroys : List Outcome → Call
  thread_moves : Outcome → Call
  acts : Firmware → Call

-- A process that has not used the library.
abbrev pub fresh : Process
fresh = record {
  serial = Port.initial;
  pins = Gpio.initial;
  log_sink = none;
  root = [];
  active = none;
  instances = λ j. none;
  net_uses = 0;
}

abbrev pub of_thread : Process → Option ℕ → Outcome → Result (List Out × Process)
of_thread p none o = ok ([], p)
of_thread p (some id) o = worker_step p id o

unfoldable pub call : Process → Call → Result (List Out × Process)
unfolding create set_callbacks start write_serial host_rx_read set_pin destroy worker_step
    firmware_step
call p (creates cfg made memory) = ok ([], (create p cfg made memory).1)
call p (sets_callbacks c) = and_then (set_callbacks p p.active c) (λ q. ok ([], q))
call p starts = and_then (start p p.active) (λ r. ok ([], r.1))
call p (feeds bytes) = ok ([], (write_serial p p.active bytes).1)
call p takes = ok ([], (host_rx_read p p.active).1)
call p (sets_pin pin value) = set_pin p p.active pin value
call p (destroys os) = and_then (destroy p p.active os) (λ r. ok (r.1, r.2))
call p (thread_moves o) = of_thread p p.active o
call p (acts a) = firmware_step p a

unfoldable pub run : Process → List Call → Result (List Out × Process)
unfolding call
run p [] = ok ([], p)
run p (c ∷ cs) = and_then (call p c) (λ r. and_then (run r.1 cs) (λ t. ok (r.0 ++ t.0, t.1)))
