-- ===== src/Host/Histories.antt =====
-- One instance at a time, and no callback into a freed one, over any history of calls; destroy ends.
use bit_magic_zi_modem.Base.{ℕ, ◌≡◌, refl, Option, none, some, List, [], ◌∷◌}
use bit_magic_zi_modem.SerialPort.{feed_input, rx_read}
use bit_magic_zi_modem.Host.Process.{Process, Out, Result}
use bit_magic_zi_modem.Host.Abi.{write_serial, host_rx_read}
use bit_magic_zi_modem.Host.Worker.{Outcome}
use bit_magic_zi_modem.Host.Calls.{
  Call, creates, sets_callbacks, starts, feeds, takes, sets_pin, destroys, thread_moves, acts,
  fresh, of_thread, call, run,
}
use bit_magic_zi_modem.Host.Lifetime.{IsValid, Fine, fine, Kept, serial-IsValid, create-IsValid}
use bit_magic_zi_modem.Host.Callbacks.{firmware_step-Kept}
use bit_magic_zi_modem.Host.Exports.{
  and_then-Fine, set_callbacks-Kept, start-Kept, set_pin-Kept, worker_step-Kept, destroy-Valid,
}

abbrev ValidAfter : List Out × Process → Type 0
ValidAfter r = IsValid r.1

weaken :
    {o : Option ℕ} (r : Result (List Out × Process))
    → Fine {A = List Out × Process} (λ x. Kept o x.1) r
    → Fine ValidAfter r
weaken r (fine a k) = fine a k.0

pub write_serial-IsValid :
    (p : Process) (o : Option ℕ) (bytes : List ℕ) → IsValid p → IsValid (write_serial p o bytes).1
unfolding write_serial feed_input
write_serial-IsValid p none bytes v = v
write_serial-IsValid p (some id) bytes v = serial-IsValid p _ refl refl v

pub host_rx_read-IsValid : (p : Process) (o : Option ℕ) → IsValid p → IsValid (host_rx_read p o).1
unfolding host_rx_read rx_read
host_rx_read-IsValid p none v = v
host_rx_read-IsValid p (some id) v = serial-IsValid p _ refl refl v

of_thread-IsValid :
    (p : Process) (o : Option ℕ) (e : Outcome)
    → IsValid p
    → p.active ≡ o
    → Fine ValidAfter (of_thread p o e)
of_thread-IsValid p none e v a = fine _ v
of_thread-IsValid p (some id) e v a = weaken _ (worker_step-Kept p id e v a)

pub call-IsValid : (p : Process) (c : Call) → IsValid p → Fine ValidAfter (call p c)
unfolding call
call-IsValid p (creates cfg made memory) v = fine _ (create-IsValid p cfg made memory v)
call-IsValid p (sets_callbacks c) v =
    and_then-Fine _ _ (set_callbacks-Kept p p.active c v refl) (λ q k. fine _ k.0)
call-IsValid p starts v = and_then-Fine _ _ (start-Kept p p.active v refl) (λ r k. fine _ k.0)
call-IsValid p (feeds bytes) v = fine _ (write_serial-IsValid p p.active bytes v)
call-IsValid p takes v = fine _ (host_rx_read-IsValid p p.active v)
call-IsValid p (sets_pin pin value) v = weaken _ (set_pin-Kept p p.active pin value v refl)
call-IsValid p (destroys os) v =
    and_then-Fine _ _ (destroy-Valid p p.active os v refl) (λ r k. fine _ k)
call-IsValid p (thread_moves o) v = of_thread-IsValid p p.active o v refl
call-IsValid p (acts a) v = weaken _ (firmware_step-Kept p a v)

runs-IsValid : (p : Process) (cs : List Call) → IsValid p → Fine ValidAfter (run p cs)
unfolding run
runs-IsValid p [] v = fine _ v
runs-IsValid p (c ∷ cs) v =
    and_then-Fine (call p c) _ (call-IsValid p c v)
      (λ r k. and_then-Fine (run r.1 cs) _ (runs-IsValid r.1 cs k) (λ t l. fine _ l))

pub fresh-IsValid : IsValid fresh
fresh-IsValid = record {
  ready = refl;
  line = refl;
  pin = refl;
  sink = refl;
  live = λ j. refl;
  free = λ j. tt;
}

-- From a fresh process, every history of exported calls with the active handle, of steps of the
-- thread and of actions of the firmware goes through: no step reads a freed instance or waits for
-- a mutex that its own thread holds, as long as the calls are made outside of callbacks. Behind
-- it the HAL's callbacks are those of the active instance, and no other instance is alive.
pub run-IsValid : (cs : List Call) → Fine {A = List Out × Process} (λ r. IsValid r.1) (run fresh cs)
run-IsValid cs = runs-IsValid fresh cs fresh-IsValid
