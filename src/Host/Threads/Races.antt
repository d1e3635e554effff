-- ===== src/Host/Threads/Races.antt =====
-- A host that calls set_pin on one thread and destroy on another, which the header allows.
use bit_magic_zi_modem.Base.{ℕ, ◌≡◌, ◌≢◌, ◌<◌, refl, sym, ap, ◌∙◌, true, false, some, arith}
use bit_magic_zi_modem.Base.Int.{ℤ}
use bit_magic_zi_modem.Pins.{differs, find}
use bit_magic_zi_modem.Pins as Gpio
use bit_magic_zi_modem.Host.Process.{Instance, Process, writes_pin}
use bit_magic_zi_modem.Host.Abi.{request_stop, release, is_joined}
use bit_magic_zi_modem.Host.Threads.{
  resting, owes, signals, joins, faulted, System, hal, move, sets_pin, stops, releases, dangles,
  Reach, here, next,
}
use bit_magic_zi_modem.Host.Threads.Calm.{update_self, update_other}
use bit_magic_zi_modem.Host.Threads.Stopping.{put_self}
use bit_magic_zi_modem.Host.Threads.Endings.{released_self}

-- A write that changes the pin leaves its thread with the callback of the pins to call.
pub write_owes :
    (p : Process) (id : ℕ) (pin value : ℤ)
    → p.pins.callback ≡ some id
    → differs (find p.pins.value pin) value ≡ true
    → (hal p (writes_pin pin value)).0 ≡ owes (signals id pin value)
unfolding hal Gpio.digital_write
write_owes p id pin value c d = rw (c, d) refl

pub write_heap :
    (p : Process) (pin value : ℤ)
    → ((hal p (writes_pin pin value)).1.instances ≡ p.instances)
      × ((hal p (writes_pin pin value)).1.active ≡ p.active)
unfolding hal
write_heap p pin value = (refl, refl)

stopped_heap :
    (p : Process) (id : ℕ) (inst : Instance)
    → (request_stop p id inst).instances id ≡ some (record inst { running = false })
unfolding request_stop
stopped_heap p id inst = put_self p id _

-- Where a thread of the host may destroy the instance while another one is in set_pin, the code
-- reaches a freed instance: from every state where the instance is active with its pin callback,
-- the background thread is at rest and at its end or not started, and two threads `i` and `j` of
-- the host are at rest, a set_pin on `i` that changes the pin and a destroy on `j` can leave `i`
-- at the mutex of the freed instance.
pub set_pin-destroy :
    (s : System) (i j id : ℕ) (inst : Instance) (pin value : ℤ)
    → 0 < i
    → 0 < j
    → i ≢ j
    → s.pc i ≡ resting
    → s.pc j ≡ resting
    → s.pc 0 ≡ resting
    → s.process.active ≡ some id
    → s.process.instances id ≡ some inst
    → is_joined inst.worker ≡ true
    → s.process.pins.callback ≡ some id
    → differs (find s.process.pins.value pin) value ≡ true
    → (t : System) × Reach false s t × (t.pc i ≡ faulted)
set_pin-destroy s i j id inst pin value zi zj n ri rj rz a e w c d =
    let p1 = hal s.process (writes_pin pin value) in
    let h = write_heap s.process pin value in
    let s1 = move s i p1.0 p1.1 in
    let e1 : s1.process.instances id ≡ some inst = ap (λ f. f id) h.0 ∙ e in
    let j1 : s1.pc j ≡ resting = update_other s.pc i p1.0 j (λ q. n (sym q)) ∙ rj in
    let z1 : s1.pc 0 ≡ resting = update_other s.pc i p1.0 0 (λ q. omega (arith, q, zi)) ∙ rz in
    let o1 : s1.pc i ≡ owes (signals id pin value) =
      update_self s.pc i p1.0 ∙ write_owes s.process id pin value c d in
    let s2 = move s1 j (joins id) (request_stop s1.process id inst) in
    let s3 = move s2 j resting (release s2.process id) in
    let o3 : s3.pc i ≡ owes (signals id pin value) =
      update_other s2.pc j resting i n ∙ update_other s1.pc j (joins id) i n ∙ o1 in
    (
      move s3 i faulted s3.process,
      next
          (next
            (next (next here (sets_pin i pin value zi ri (λ q. cc (q))))
              (stops j id inst zj j1 (h.1 ∙ a) e1 (λ q. cc (q))))
            (releases j id (record inst { running = false }) (update_self s1.pc j (joins id))
              (update_other s1.pc j (joins id) 0 (λ q. omega (arith, q, zj)) ∙ z1)
              (stopped_heap s1.process id inst) w))
          (dangles i (signals id pin value) o3 (released_self s2.process id)),
      update_self s3.pc i faulted,
    )
