-- ===== src/Host/Bytes.antt =====
-- The bytes that cross the C ABI: what the host feeds and takes, and what the firmware reads and
-- prints, over any history of one process.
use bit_magic_zi_modem.Base.{ℕ, ◌≡◌, sym, ◌∙◌, arith, Option, none, some, List, [], ◌∷◌, ◌++◌}
use mathlib.Core.List.{append-nil}
use bit_magic_zi_modem.SerialPort.{Serial, feed_input, rx_read, set_line_config, set_line_baud}
use bit_magic_zi_modem.Base.Int.{ℤ}
use bit_magic_zi_modem.SerialPort as Port
use bit_magic_zi_modem.Pins.{digital_write}
use bit_magic_zi_modem.SerialPort.Line.{Begin, begin, baud_only, baud_config}
use bit_magic_zi_modem.SerialPort.Queue.{
  Traffic, quiet, as_bytes, join, IsFifo, push_all-append, pop_fifo, chain,
}
use bit_magic_zi_modem.Host.Process.{
  Process, Out, Result, ok, and_then, Firmware, prints, reads, writes_pin, begins, logs,
  firmware_step, deliver_events, deliver_signals, write_log,
}
use bit_magic_zi_modem.Host.Abi.{create, write_serial, host_rx_read, set_pin, set_callbacks, start}
use bit_magic_zi_modem.Host.Worker.{Outcome, worker_step, destroy}
use bit_magic_zi_modem.Host.Calls.{
  Call, creates, sets_callbacks, starts, feeds, takes, sets_pin, destroys, thread_moves, acts,
  fresh, of_thread, call,
}
use bit_magic_zi_modem.Host.Lifetime.{IsValid, Fine, fine}
use bit_magic_zi_modem.Host.Always.{
  Always, through, and_then-Always, and_then_lem, map-Always, Fine-Always,
}
use bit_magic_zi_modem.Host.Same.{
  Same, same, create-Same, set_callbacks-Same, start-Same, worker_step-Same, destroy-Same,
}
use bit_magic_zi_modem.Host.Exports.{and_then-Fine}
use bit_magic_zi_modem.Host.Histories.{call-IsValid, fresh-IsValid}

-- What a call moves: the host's bytes where there is an instance, and the byte that a read gave.
abbrev pub fed_by : Option ℕ → List ℕ → List ℕ
fed_by none bytes = []
fed_by (some id) bytes = bytes

abbrev pub acted : Process → Firmware → Traffic
acted p (prints bytes) = record quiet { written = bytes }
acted p reads = record quiet { got = as_bytes (Port.read p.serial).0 }
acted p (writes_pin pin value) = quiet
acted p (begins b) = quiet
acted p (logs message) = quiet

abbrev pub moved : Process → Call → Traffic
moved p (creates cfg made memory) = quiet
moved p (sets_callbacks c) = quiet
moved p starts = quiet
moved p (feeds bytes) = record quiet { fed = fed_by p.active bytes }
moved p takes = record quiet { drained = as_bytes (host_rx_read p p.active).0 }
moved p (sets_pin pin value) = quiet
moved p (destroys os) = quiet
moved p (thread_moves o) = quiet
moved p (acts a) = acted p a

unfoldable pub traffic : Process → List Call → Result (Traffic × Process)
unfolding call
traffic p [] = ok (quiet, p)
traffic p (c ∷ cs) =
    and_then (call p c) (λ r. and_then (traffic r.1 cs) (λ t. ok (join (moved p c) t.0, t.1)))

pub Same-IsFifo : (p q : Process) → Same p q → IsFifo p.serial (quiet, q.serial)
Same-IsFifo p q a =
    (a.input ∙ sym (append-nil p.serial.input), a.rx_queue ∙ sym (append-nil p.serial.rx_queue))

-- The traffic of a call, between the port before it and the port behind it.
abbrev pub Moves : Process → Traffic → List Out × Process → Type 0
Moves p t r = IsFifo p.serial (t, r.1.serial)

pub write_serial-IsFifo :
    (p : Process) (o : Option ℕ) (bytes : List ℕ)
    → IsFifo p.serial (record quiet { fed = fed_by o bytes }, (write_serial p o bytes).1.serial)
unfolding write_serial feed_input
write_serial-IsFifo p none bytes = Same-IsFifo p p (same p)
write_serial-IsFifo p (some id) bytes =
    (push_all-append p.serial.input bytes, sym (append-nil p.serial.rx_queue))

pub host_rx_read-IsFifo :
    (p : Process) (o : Option ℕ)
    → IsFifo p.serial
        (record quiet { drained = as_bytes (host_rx_read p o).0 }, (host_rx_read p o).1.serial)
unfolding host_rx_read rx_read
host_rx_read-IsFifo p none = Same-IsFifo p p (same p)
host_rx_read-IsFifo p (some id) = (sym (append-nil p.serial.input), pop_fifo p.serial.rx_queue)

begin-IsFifo : (s : Serial ℕ) (b : Begin) → IsFifo s (quiet, (begin s b).1)
unfolding begin set_line_config set_line_baud
begin-IsFifo s (baud_only baud) = ground (arith, append-nil s.input, append-nil s.rx_queue)
begin-IsFifo s (baud_config baud config) = ground (arith, append-nil s.input, append-nil s.rx_queue)

pub firmware_step-Moves :
    (p : Process) (a : Firmware) → Always (Moves p (acted p a)) (firmware_step p a)
unfolding firmware_step Port.write Port.read digital_write
firmware_step-Moves p (prints bytes) =
    and_then_lem (deliver_events p.instances (Port.write p.serial bytes).1) _
      (λ out. through _ (sym (append-nil p.serial.input), push_all-append p.serial.rx_queue bytes))
firmware_step-Moves p reads =
    through _ (pop_fifo p.serial.input, sym (append-nil p.serial.rx_queue))
firmware_step-Moves p (writes_pin pin value) =
    and_then_lem (deliver_signals p.instances (digital_write p.pins pin value).0) _
      (λ out. through _ (Same-IsFifo p p (same p)))
firmware_step-Moves p (begins b) =
    and_then_lem (deliver_events p.instances (begin p.serial b).0) _
      (λ out. through _ (begin-IsFifo p.serial b))
firmware_step-Moves p (logs message) =
    and_then_lem (write_log p.instances p.log_sink message) _
      (λ out. through _ (Same-IsFifo p p (same p)))

pub set_pin-Moves :
    (p : Process) (o : Option ℕ) (pin value : ℤ) → Always (Moves p quiet) (set_pin p o pin value)
unfolding set_pin digital_write
set_pin-Moves p none pin value = through _ (Same-IsFifo p p (same p))
set_pin-Moves p (some id) pin value =
    and_then_lem (deliver_signals p.instances (digital_write p.pins pin value).0) _
      (λ out. through _ (Same-IsFifo p p (same p)))

pub thread-Moves :
    (p : Process) (o : Option ℕ) (e : Outcome) → Always (Moves p quiet) (of_thread p o e)
thread-Moves p none e = through _ (Same-IsFifo p p (same p))
thread-Moves p (some id) e =
    map-Always (worker_step p id e) (worker_step-Same p id e) (λ r a. Same-IsFifo p r.1 a)

call-Moves : (p : Process) (c : Call) → Always (Moves p (moved p c)) (call p c)
unfolding call
call-Moves p (creates cfg made memory) =
    through _ (Same-IsFifo p (create p cfg made memory).1 (create-Same p cfg made memory))
call-Moves p (sets_callbacks c) =
    and_then-Always (set_callbacks p p.active c) _ (set_callbacks-Same p p.active c)
      (λ q a. through _ (Same-IsFifo p q a))
call-Moves p starts =
    and_then-Always (start p p.active) _ (start-Same p p.active)
      (λ r a. through _ (Same-IsFifo p r.1 a))
call-Moves p (feeds bytes) = through _ (write_serial-IsFifo p p.active bytes)
call-Moves p takes = through _ (host_rx_read-IsFifo p p.active)
call-Moves p (sets_pin pin value) = set_pin-Moves p p.active pin value
call-Moves p (destroys os) =
    and_then-Always (destroy p p.active os) _ (destroy-Same p p.active os)
      (λ r a. through _ (Same-IsFifo p r.2 a))
call-Moves p (thread_moves o) = thread-Moves p p.active o
call-Moves p (acts a) = firmware_step-Moves p a

traffic-IsFifo :
    (cs : List Call) (p : Process)
    → IsValid p
    → Fine {A = Traffic × Process} (λ r. IsFifo p.serial (r.0, r.1.serial)) (traffic p cs)
unfolding traffic
traffic-IsFifo [] p v = fine _ (Same-IsFifo p p (same p))
traffic-IsFifo (c ∷ cs) p v =
    and_then-Fine (call p c) _ (Fine-Always (call p c) (call-IsValid p c v) (call-Moves p c))
      (λ r h. and_then-Fine (traffic r.1 cs) _ (traffic-IsFifo cs r.1 h.0) (λ t k. fine _ (
        chain p.serial.input r.1.serial.input t.1.serial.input (moved p c).got t.0.got
            (moved p c).fed t.0.fed h.1.0 k.0,
        chain p.serial.rx_queue r.1.serial.rx_queue t.1.serial.rx_queue (moved p c).drained
            t.0.drained (moved p c).written t.0.written h.1.1 k.1,
      )))

-- From a fresh process, every history goes through, and over all of it, the instances that it
-- creates and destroys one after the other included: the firmware reads the bytes that the host
-- fed, and the host takes the bytes that the firmware printed, from the front, each once and in
-- order; the others still wait in the two queues.
pub traffic_lem :
    (cs : List Call)
    → Fine {A = Traffic × Process}
        (λ r.
          (r.0.got ++ r.1.serial.input ≡ r.0.fed)
          × (r.0.drained ++ r.1.serial.rx_queue ≡ r.0.written))
        (traffic fresh cs)
traffic_lem cs = traffic-IsFifo cs fresh fresh-IsValid
