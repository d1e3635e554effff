-- ===== src/Managed/Held.antt =====
-- Which object of the managed wrapper holds the native instance, and what a call does to that.
use bit_magic_zi_modem.Base.{
  ℕ, ◌≡◌, refl, sym, ap, ◌∙◌, true, false, Option, none, some, List, [], ◌++◌, if◌then◌else◌,
}
use bit_magic_zi_modem.SerialPort.{Serial}
use bit_magic_zi_modem.SerialPort.Queue.{Traffic, quiet, IsFifo}
use bit_magic_zi_modem.Host.Process.{Process, Out, Result, ok, and_then}
use bit_magic_zi_modem.Host.Lifetime.{IsValid, Fine, fine, Kept}
use bit_magic_zi_modem.Host.Always.{Always, Fine-Always}
use bit_magic_zi_modem.Host.Same.{Same, same}
use bit_magic_zi_modem.Host.Exports.{and_then-Fine, choice-Fine}
use bit_magic_zi_modem.Host.Bytes.{acted, Same-IsFifo}
use bit_magic_zi_modem.Managed.{
  Device, Event, Managed, Answer, react_all, reacted, on_device, Use, constructs, starts, writes,
  sets_pin, disposes, thread_moves, acts,
}
use bit_magic_zi_modem.Managed.Draining.{data_of, react_all-IsTaken}

-- At most one object is not disposed, and its handle is that of the active instance.
pub record IsHeld (m : Managed) : Type 0 where
  pub valid : IsValid m.process
  pub live :
      (k : ℕ) (d : Device)
      → m.objects k ≡ some d
      → d.disposed ≡ false
      → m.process.active ≡ some d.native
  pub one :
      (j k : ℕ) (c d : Device)
      → m.objects j ≡ some c
      → m.objects k ≡ some d
      → c.disposed ≡ false
      → d.disposed ≡ false
      → j ≡ k

-- What a use does to the port, but for what the delegates take of it: an object that is not
-- disposed passes the bytes of WriteSerial on.
abbrev pub accepted : Option Device → List ℕ → List ℕ
accepted none bytes = []
accepted (some d) bytes = if d.disposed then [] else bytes

abbrev pub moved : Managed → Use → Traffic
moved m (constructs dir accessible memory) = quiet
moved m (starts k) = quiet
moved m (writes k bytes) = record quiet { fed = accepted (m.objects k) bytes }
moved m (sets_pin k pin state) = quiet
moved m (disposes k outcomes) = quiet
moved m (thread_moves o) = quiet
moved m (acts a) = acted m.process a

-- The bytes that the firmware reads are those fed, and the bytes of the events those printed, from
-- one state of the port to another.
abbrev pub Carried : Serial ℕ → Traffic → List Event → Serial ℕ → Type 0
Carried s t es s' =
    (t.got ++ s'.input ≡ s.input ++ t.fed) × (data_of es ++ s'.rx_queue ≡ s.rx_queue ++ t.written)

pub record IsGood (m : Managed) (t : Traffic) (a : Answer) : Type 0 where
  pub held : IsHeld a.managed
  pub carried : Carried m.process.serial t a.events a.managed.process.serial

-- The process changes below the same objects.
pub process-IsHeld :
    (m : Managed) (q : Process)
    → IsHeld m
    → Kept m.process.active q
    → IsHeld (record m { process = q })
process-IsHeld m q h k = record { valid = k.0; live = λ j d e f. k.1 ∙ h.live j d e f; one = h.one }

pub still-IsGood :
    (m : Managed) (a : Answer)
    → IsHeld a.managed
    → Same m.process a.managed.process
    → a.events ≡ []
    → IsGood m quiet a
still-IsGood m a h s e =
    let f = Same-IsFifo m.process a.managed.process s in
    record { held = h; carried = rw e (f.0, f.1) }

-- The delegates take some bytes behind a native call that took none.
pub reacted-IsGood :
    (m n : Managed) (t : Traffic) (r : List Out × Process)
    → IsHeld (record n { process = r.1 })
    → IsFifo m.process.serial (t, r.1.serial)
    → t.drained ≡ []
    → IsGood m t (reacted n r)
reacted-IsGood m n t r h f d =
    let k = react_all-IsTaken r.0 r.1 in
    record {
      held =
          process-IsHeld (record n { process = r.1 }) (react_all r.0 r.1).1 h
            (k.kept r.1.active (h.valid, refl));
      carried = (
        ap (λ x. t.got ++ x) k.input ∙ f.0,
        k.queue ∙ ap (λ x. x ++ r.1.serial.rx_queue) (sym d) ∙ f.1,
      );
    }

-- A native call that keeps the active instance, and the delegates behind it.
pub Kept-IsGood :
    (m : Managed) (t : Traffic) (r : Result (List Out × Process))
    → IsHeld m
    → t.drained ≡ []
    → Fine (λ x. Kept m.process.active x.1) r
    → Always (λ x. IsFifo m.process.serial (t, x.1.serial)) r
    → Fine (IsGood m t) (and_then r (λ x. ok (reacted m x)))
Kept-IsGood m t r h d k a =
    and_then-Fine r _ (Fine-Always r k a)
      (λ x y. fine _ (reacted-IsGood m m t x (process-IsHeld m x.1 h y.0) y.1 d))

-- Nothing happens.
pub idle-IsGood :
    (m : Managed) (a : Answer) → IsHeld m → a.managed ≡ m → a.events ≡ [] → IsGood m quiet a
idle-IsGood m a h e f = still-IsGood m a (rw e h) (rw e (same m.process)) f

pub on_device-IsGood :
    (m : Managed) (k : ℕ) (t : Option Device → Traffic) (body : Device → Result Answer)
    → IsHeld m
    → t none ≡ quiet
    → ((d : Device) → d.disposed ≡ true → t (some d) ≡ quiet)
    → ((d : Device)
        → m.objects k ≡ some d
        → d.disposed ≡ false
        → Fine (IsGood m (t (some d))) (body d))
    → Fine (IsGood m (t (m.objects k))) (on_device m (m.objects k) body)
on_device-IsGood m k t body h z q b = go (m.objects k) refl
  where
    go : (o : Option Device) → m.objects k ≡ o → Fine (IsGood m (t o)) (on_device m o body)
    go none e = rw z (fine _ (idle-IsGood m _ h refl refl))
    go (some d) e =
        choice-Fine d.disposed _ _ (λ x. rw (q d x) (fine _ (idle-IsGood m _ h refl refl)))
          (λ x. b d e x)
