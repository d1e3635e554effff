-- ===== src/Managed/Methods.antt =====
-- SetPin, WriteSerial, Start and Dispose of the managed wrapper.
use bit_magic_zi_modem.Base.{
  ℕ, ◌≡◌, ◌≢◌, refl, sym, ap, subst, ◌∙◌, true, false, Option, none, some, List, inl, inr,
  Bool-cases, ◌==◌, ==_iff, if◌then◌else◌,
}
use bit_magic_zi_modem.Base.Int.{ℤ, pos, ◌==ℤ◌}
use bit_magic_zi_modem.SerialPort.Queue.{quiet}
use bit_magic_zi_modem.Host.Process.{Process, Out}
use bit_magic_zi_modem.Host.Abi.{start, write_serial, set_pin}
use bit_magic_zi_modem.Host.Worker.{Outcome, destroy}
use bit_magic_zi_modem.Host.Lifetime.{IsValid, Fine, fine, Kept}
use bit_magic_zi_modem.Host.Always.{Fine-Always}
use bit_magic_zi_modem.Host.Same.{Same, start-Same, destroy-Same}
use bit_magic_zi_modem.Host.Exports.{
  and_then-Fine, choice-Fine, start-Kept, set_pin-Kept, destroy-Valid,
}
use bit_magic_zi_modem.Host.Histories.{write_serial-IsValid}
use bit_magic_zi_modem.Host.Bytes.{Same-IsFifo, write_serial-IsFifo, set_pin-Moves}
use bit_magic_zi_modem.Managed.{
  Device, Managed, set_object, start_answer, start_device, write_device, set_device_pin, dispose_at,
  dispose, writes,
}
use bit_magic_zi_modem.Managed.Held.{
  IsHeld, moved, IsGood, process-IsHeld, still-IsGood, reacted-IsGood, Kept-IsGood, idle-IsGood,
  on_device-IsGood, accepted,
}

pub set_pin-IsGood :
    (m : Managed) (k : ℕ) (pin state : ℤ)
    → IsHeld m
    → Fine (IsGood m quiet) (set_device_pin m k pin state)
unfolding set_device_pin
set_pin-IsGood m k pin state h =
    on_device-IsGood m k (λ o. quiet) _ h refl (λ d x. refl)
      (λ d e x.
        let a = h.live k d e x in
        Kept-IsGood m quiet (set_pin m.process (some d.native) pin state) h refl
          (subst
            (λ o.
              Fine {A = List Out × Process} (λ r. Kept o r.1)
                (set_pin m.process (some d.native) pin state))
            (sym a) (set_pin-Kept m.process (some d.native) pin state h.valid a))
          (set_pin-Moves m.process (some d.native) pin state))

pub write-IsGood :
    (m : Managed) (k : ℕ) (bytes : List ℕ)
    → IsHeld m
    → Fine (IsGood m (moved m (writes k bytes))) (write_device m k bytes)
unfolding write_device
write-IsGood m k bytes h =
    on_device-IsGood m k (λ o. record quiet { fed = accepted o bytes }) _ h refl (λ d x. rw x refl)
      (λ d e x.
        let a = h.live k d e x in
        let q = (write_serial m.process (some d.native) bytes).1 in
        let f = write_serial-IsFifo m.process (some d.native) bytes in
        fine _ (record {
          held = process-IsHeld m q h (
            write_serial-IsValid m.process (some d.native) bytes h.valid,
            unfold write_serial in refl,
          );
          carried = rw x (f.0, f.1);
        }))

-- An object that is not disposed changes into one with the same handle.
pub object-IsHeld :
    (m : Managed) (k : ℕ) (old d : Device)
    → IsHeld m
    → m.objects k ≡ some old
    → d.native ≡ old.native
    → (d.disposed ≡ false → old.disposed ≡ false)
    → IsHeld (record m { objects = set_object m k d })
object-IsHeld m k old d h e n f = record {
  valid = h.valid;
  live = λ j c p q. let o = before j c p q in h.live j o.0 o.1 o.2.0 ∙ ap some (sym o.2.1);
  one = λ i j b c p q u v.
      let x = before i b p u in let y = before j c q v in h.one i j x.0 y.0 x.1 y.1 x.2.0 y.2.0;
}
  where
    -- The object as it was before the change.
    before :
        (j : ℕ) (c : Device)
        → set_object m k d j ≡ some c
        → c.disposed ≡ false
        → (o : Device) × (m.objects j ≡ some o) × ((o.disposed ≡ false) × (c.native ≡ o.native))
    before j c p q = elim (Bool-cases (j == k)) [
      | inl b ↦
          let x : d ≡ c = cc (ap (λ t. if t then some d else m.objects j) (sym b) ∙ p) in
          (
            old,
            ap m.objects ((==_iff j k).0 b) ∙ e,
            (f (ap (λ y. y.disposed) x ∙ q), ap (λ y. y.native) (sym x) ∙ n),
          )
      | inr b ↦ (c, ap (λ t. if t then some d else m.objects j) (sym b) ∙ p, (q, refl))
    ]

start_answer-IsGood :
    (m : Managed) (k : ℕ) (d : Device) (r : ℤ × Process)
    → IsHeld m
    → m.objects k ≡ some d
    → Kept m.process.active r.1
    → Same m.process r.1
    → IsGood m quiet (start_answer m k d r)
start_answer-IsGood m k d r h e n s = elim (Bool-cases (r.0 ==ℤ pos 0)) [
  | inl b ↦ rw b (
      still-IsGood m _
        (object-IsHeld (record m { process = r.1 }) k d (record d { started = true })
          (process-IsHeld m r.1 h n) e refl (λ x. x))
        s refl)
  | inr b ↦ rw b (still-IsGood m _ (process-IsHeld m r.1 h n) s refl)
]

pub start-IsGood : (m : Managed) (k : ℕ) → IsHeld m → Fine (IsGood m quiet) (start_device m k)
unfolding start_device
start-IsGood m k h =
    on_device-IsGood m k (λ o. quiet) _ h refl (λ d x. refl)
      (λ d e x.
        let a = h.live k d e x in
        choice-Fine d.started _ _ (λ y. fine _ (idle-IsGood m _ h refl refl))
          (λ y.
            and_then-Fine (start m.process (some d.native)) _
              (Fine-Always _ (start-Kept m.process (some d.native) h.valid a)
                (start-Same m.process (some d.native)))
              (λ r z. fine _ (start_answer-IsGood m k d r h e (z.0.0, z.0.1 ∙ sym a) z.1))))

-- Behind a Dispose no object is left that is not disposed.
disposed-IsHeld :
    (m : Managed) (k : ℕ) (d : Device) (q : Process)
    → IsHeld m
    → m.objects k ≡ some d
    → d.disposed ≡ false
    → IsValid q
    → IsHeld (record m { process = q; objects = set_object m k (record d { disposed = true }) })
disposed-IsHeld m k d q h e f v = record {
  valid = v;
  live = λ j c p x. absurd (nobody j c p x);
  one = λ i j b c p y u x. absurd (nobody i b p u);
}
  where
    nobody :
        (j : ℕ) (c : Device)
        → set_object m k (record d { disposed = true }) j ≡ some c
        → c.disposed ≢ false
    nobody j c p x = elim (Bool-cases (j == k)) [
      | inl b ↦
          let y : record d { disposed = true } ≡ c = cc (
            ap (λ t. if t then some (record d { disposed = true }) else m.objects j) (sym b) ∙ p) in
          cc (ap (λ z. z.disposed) y, x)
      | inr b ↦
          let y =
            ap (λ t. if t then some (record d { disposed = true }) else m.objects j) (sym b) ∙ p in
          cc (b, (==_iff j k).1 (h.one j k c d y e x f))
    ]

pub dispose-IsGood :
    (m : Managed) (k : ℕ) (outcomes : List Outcome)
    → IsHeld m
    → Fine (IsGood m quiet) (dispose m k outcomes)
unfolding dispose
dispose-IsGood m k outcomes h = go (m.objects k) refl
  where
    go : (o : Option Device) → m.objects k ≡ o → Fine (IsGood m quiet) (dispose_at m k o outcomes)
    go none e = fine _ (idle-IsGood m _ h refl refl)
    go (some d) e =
        choice-Fine d.disposed _ _ (λ x. fine _ (idle-IsGood m _ h refl refl))
          (λ x.
            let a = h.live k d e x in
            and_then-Fine (destroy m.process (some d.native) outcomes) _
              (Fine-Always _ (destroy-Valid m.process (some d.native) outcomes h.valid a)
                (destroy-Same m.process (some d.native) outcomes))
              (λ r y. fine _ (
                reacted-IsGood m
                  (record m { objects = set_object m k (record d { disposed = true }) }) quiet
                  (r.1, r.2) (disposed-IsHeld m k d r.2 h e x y.0) (Same-IsFifo m.process r.2 y.1)
                  refl)))
