-- ===== src/Managed/Laws.antt =====
-- The managed wrapper keeps the native library's contract, whatever the application does with its
-- objects, and hands over the bytes of both directions.
use bit_magic_zi_modem.Base.{
  ℕ, ◌+◌, ◌≡◌, refl, sym, ap, ◌∙◌, true, false, Bool, Option, none, some, List, [], ◌∷◌, ◌++◌, inl,
  inr, Bool-cases, ◌==◌, ==_iff, if◌then◌else◌,
}
use mathlib.Core.List.{append-nil}
use bit_magic_zi_modem.SerialPort.Queue.{Traffic, quiet, join, chain}
use bit_magic_zi_modem.Host.Process.{
  Process, Out, Result, ok, and_then, Firmware, prints, reads, writes_pin, begins, logs,
  firmware_step,
}
use bit_magic_zi_modem.Host.Abi.{Created, null, handle, create, create_at, set_callbacks}
use bit_magic_zi_modem.Host.Worker.{Outcome}
use bit_magic_zi_modem.Host.Calls.{fresh, of_thread}
use bit_magic_zi_modem.Host.Lifetime.{IsValid, Fine, fine, Kept, register-IsValid, move-IsValid}
use bit_magic_zi_modem.Host.Always.{Fine-Always, map-Fine}
use bit_magic_zi_modem.Host.Same.{Same, Same-trans, create-Same, set_callbacks-Same}
use bit_magic_zi_modem.Host.Callbacks.{firmware_step-Kept}
use bit_magic_zi_modem.Host.Exports.{and_then-Fine, set_callbacks-Kept, worker_step-Kept}
use bit_magic_zi_modem.Host.Histories.{fresh-IsValid}
use bit_magic_zi_modem.Host.Bytes.{acted, firmware_step-Moves, thread-Moves}
use bit_magic_zi_modem.Managed.{
  Device, Event, Managed, set_object, delegates, constructed, construct, Use, constructs, starts,
  writes, sets_pin, disposes, thread_moves, acts, use_once,
}
use bit_magic_zi_modem.Managed.Draining.{data_of, data_of-append}
use bit_magic_zi_modem.Managed.Held.{
  IsHeld, moved, Carried, IsGood, process-IsHeld, still-IsGood, Kept-IsGood, idle-IsGood,
}
use bit_magic_zi_modem.Managed.Methods.{set_pin-IsGood, write-IsGood, start-IsGood, dispose-IsGood}

-- What zimodem_host_create comes back with: nothing, with the active instance as it was, or a new
-- active instance where there was none.
data IsMade (p : Process) : Created × Process → Type 0 where
  fails : (q : Process) → Kept p.active q → IsMade p (null, q)
  makes : (id : ℕ) (q : Process) → p.active ≡ none → Kept (some id) q → IsMade p (handle id, q)

create-IsMade :
    (p : Process) (dir : List ℕ) (c : ℕ) (memory : Option ℕ)
    → IsValid p
    → IsMade p (create p (some (some (c ∷ dir))) true memory)
unfolding create
create-IsMade p dir c memory v = at p.active refl memory
  where
    at : (o : Option ℕ) → p.active ≡ o → (n : Option ℕ) → IsMade p (create_at p o (c ∷ dir) true n)
    at (some id) e n = fails p (v, refl)
    at none e none = fails _ (move-IsValid p (c ∷ dir) (p.net_uses + 1) v, refl)
    at none e (some id) =
        makes id _ e (register-IsValid _ id (move-IsValid p (c ∷ dir) (p.net_uses + 1) v) e, refl)

-- A new object, where no object before it is still to be disposed.
pub new-IsHeld :
    (m : Managed) (h : ℕ) (q : Process)
    → IsHeld m
    → m.process.active ≡ none
    → Kept (some h) q
    → IsHeld (record {
      process = q;
      objects = set_object m m.next (record { native = h; started = false; disposed = false });
      next = m.next + 1;
    })
new-IsHeld m h q held e k = record {
  valid = k.0;
  live = λ j d p x. let o = only j d p x in k.1 ∙ ap some (sym o.1);
  one = λ i j b c p y u x. (only i b p u).0 ∙ sym (only j c y x).0;
}
  where
    fresh_object : Device
    fresh_object = record { native = h; started = false; disposed = false }

    only :
        (j : ℕ) (d : Device)
        → set_object m m.next (record { native = h; started = false; disposed = false }) j ≡ some d
        → d.disposed ≡ false
        → (j ≡ m.next) × (d.native ≡ h)
    only j d p x = elim (Bool-cases (j == m.next)) [
      | inl b ↦
          let y : fresh_object ≡ d =
            cc (ap (λ t. if t then some fresh_object else m.objects j) (sym b) ∙ p) in
          ((==_iff j m.next).0 b, ap (λ z. z.native) (sym y))
      | inr b ↦
          cc (
            e,
            held.live j d (ap (λ t. if t then some fresh_object else m.objects j) (sym b) ∙ p) x,
          )
    ]

constructed-IsGood :
    (m : Managed) (r : Created × Process)
    → IsHeld m
    → IsMade m.process r
    → Same m.process r.1
    → Fine (IsGood m quiet) (constructed m r)
constructed-IsGood m r h (fails q k) s = fine _ (still-IsGood m _ (process-IsHeld m q h k) s refl)
constructed-IsGood m r h (makes id q e k) s =
    and_then-Fine (set_callbacks q (some id) (delegates id)) _
      (Fine-Always _ (set_callbacks-Kept q (some id) (delegates id) k.0 k.1)
        (set_callbacks-Same q (some id) (delegates id)))
      (λ x y. fine _ (still-IsGood m _ (new-IsHeld m id x h e y.0) (Same-trans s y.1) refl))

construct-IsGood :
    (m : Managed) (dir : List ℕ) (accessible : Bool) (memory : Option ℕ)
    → IsHeld m
    → Fine (IsGood m quiet) (construct m dir accessible memory)
unfolding construct
construct-IsGood m [] accessible memory h = fine _ (idle-IsGood m _ h refl refl)
construct-IsGood m (c ∷ dir) false memory h = fine _ (idle-IsGood m _ h refl refl)
construct-IsGood m (c ∷ dir) true memory h =
    constructed-IsGood m _ h (create-IsMade m.process dir c memory h.valid)
      (create-Same m.process (some (some (c ∷ dir))) true memory)

of_thread-Kept :
    (p : Process) (o : Option ℕ) (e : Outcome)
    → IsValid p
    → p.active ≡ o
    → Fine {A = List Out × Process} (λ r. Kept o r.1) (of_thread p o e)
of_thread-Kept p none e v a = fine _ (v, a)
of_thread-Kept p (some id) e v a = worker_step-Kept p id e v a

acted_quiet : (p : Process) (a : Firmware) → (acted p a).drained ≡ []
acted_quiet p (prints bytes) = refl
acted_quiet p reads = refl
acted_quiet p (writes_pin pin value) = refl
acted_quiet p (begins b) = refl
acted_quiet p (logs message) = refl

use_once-IsGood : (m : Managed) (u : Use) → IsHeld m → Fine (IsGood m (moved m u)) (use_once m u)
unfolding use_once
use_once-IsGood m (constructs dir accessible memory) h = construct-IsGood m dir accessible memory h
use_once-IsGood m (starts k) h = start-IsGood m k h
use_once-IsGood m (writes k bytes) h = write-IsGood m k bytes h
use_once-IsGood m (sets_pin k pin state) h = set_pin-IsGood m k pin state h
use_once-IsGood m (disposes k outcomes) h = dispose-IsGood m k outcomes h
use_once-IsGood m (thread_moves o) h =
    Kept-IsGood m quiet (of_thread m.process m.process.active o) h refl
      (of_thread-Kept m.process m.process.active o h.valid refl)
      (thread-Moves m.process m.process.active o)
use_once-IsGood m (acts a) h =
    Kept-IsGood m (acted m.process a) (firmware_step m.process a) h (acted_quiet m.process a)
      (firmware_step-Kept m.process a h.valid) (firmware_step-Moves m.process a)

-- A history of uses: what crossed the port, and the events in order.
unfoldable pub uses : Managed → List Use → Result (Traffic × List Event × Managed)
unfolding use_once
uses m [] = ok (quiet, [], m)
uses m (u ∷ us) =
    and_then (use_once m u)
      (λ a. and_then (uses a.managed us) (λ t. ok (join (moved m u) t.0, a.events ++ t.1, t.2)))

uses-Carried :
    (us : List Use) (m : Managed)
    → IsHeld m
    → Fine {A = Traffic × List Event × Managed}
        (λ r. IsHeld r.2 × Carried m.process.serial r.0 r.1 r.2.process.serial)
        (uses m us)
unfolding uses
uses-Carried [] m h =
    fine _
      (h, (sym (append-nil m.process.serial.input), sym (append-nil m.process.serial.rx_queue)))
uses-Carried (u ∷ us) m h = and_then-Fine (use_once m u) _ (use_once-IsGood m u h) (λ a g.
    and_then-Fine (uses a.managed us) _ (uses-Carried us a.managed g.held) (λ t k. fine _ (
      k.0,
      (
        chain _ _ _ (moved m u).got t.0.got (moved m u).fed t.0.fed g.carried.0 k.1.0,
        ap (λ x. x ++ t.2.process.serial.rx_queue) (data_of-append a.events t.1)
            ∙ chain _ _ _ (data_of a.events) (data_of t.1) (moved m u).written t.0.written
                g.carried.1 k.1.1,
      ),
    )))

-- A process that has not used the library.
abbrev pub no_objects : Managed
no_objects = record { process = fresh; objects = λ k. none; next = 0 }

pub no_objects-IsHeld : IsHeld no_objects
no_objects-IsHeld = record {
  valid = fresh-IsValid;
  live = λ k d e x. cc (e);
  one = λ j k c d e f x y. cc (e);
}

-- Whatever an application does with the objects, also with ones that it disposed of or whose
-- constructor threw, while the background thread and the firmware run: no native call or callback
-- reaches a freed instance or waits for a mutex of its own thread, at most one object is not
-- disposed and it holds the active instance, the firmware reads the bytes that WriteSerial passed
-- on, and the SerialDataReceived events carry the bytes that the firmware printed, each once and in
-- order; the others still wait in the two queues.
pub uses_lem :
    (us : List Use)
    → Fine {A = Traffic × List Event × Managed}
        (λ r.
          IsHeld r.2
          × (r.0.got ++ r.2.process.serial.input ≡ r.0.fed)
          × (data_of r.1 ++ r.2.process.serial.rx_queue ≡ r.0.written))
        (uses no_objects us)
uses_lem us = map-Fine _ (uses-Carried us no_objects no_objects-IsHeld) (λ r k. (k.0, k.1.0, k.1.1))
