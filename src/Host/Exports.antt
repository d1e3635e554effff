-- ===== src/Host/Exports.antt =====
-- Each exported function, and each step of the thread, keeps the process valid.
use bit_magic_zi_modem.Base.{
  ℕ, ◌≡◌, refl, sym, subst, ap, All, ◌∙◌, Bool, true, false, Option, none, some, List, [], ◌∷◌,
  arith, if◌then◌else◌, ◌==◌, inl, inr, Bool-cases,
}
use bit_magic_zi_modem.Base.Int.{ℤ}
use bit_magic_zi_modem.SerialPort.{set_data_ready_callback, set_line_config_callback}
use bit_magic_zi_modem.Pins.{set_signal_callback, digital_write}
use bit_magic_zi_modem.Host.Process.{
  Worker, idle, setting_up, testing, looping, ended, Instance, Process, Out, Result, ok, deadlock,
  and_then, log, call_log,
}
use bit_magic_zi_modem.Host.Abi.{
  is_live, clear, Callbacks, install, set_callbacks, start, set_pin, request_stop, release,
  is_joined,
}
use bit_magic_zi_modem.Host.Worker.{
  Outcome, stopped, after_call, worker_at, worker_step, join, joined, destroy,
}
use bit_magic_zi_modem.Host.Lifetime.{
  names, IsValid, Fine, fine, Kept, active_instance, pins-IsValid, put-IsValid,
}
use bit_magic_zi_modem.Host.Callbacks.{deliver_signals-ok, notify-Signals, Signals}

pub and_then-Fine {ℓ κ μ ν} :
    {A : Type ℓ} {B : Type κ} {Q : A → Type μ} {R : B → Type ν} (r : Result A) (f : A → Result B)
    → Fine Q r
    → ((a : A) → Q a → Fine R (f a))
    → Fine R (and_then r f)
and_then-Fine r f (fine a q) h = h a q

pub choice-Fine {ℓ κ} :
    {A : Type ℓ} {Q : A → Type κ} (b : Bool) (r t : Result A)
    → (b ≡ true → Fine Q r)
    → (b ≡ false → Fine Q t)
    → Fine Q (if b then r else t)
choice-Fine true r t h k = h refl
choice-Fine false r t h k = k refl

guarded-Fine {ℓ κ} :
    {A : Type ℓ} {Q : A → Type κ} (b : Bool) (r : Result A)
    → b ≡ false
    → Fine Q r
    → Fine Q (if b then deadlock else r)
guarded-Fine b r e h = rw e h

pub set_callbacks-Kept :
    (p : Process) (o : Option ℕ) (c : Callbacks)
    → IsValid p
    → p.active ≡ o
    → Fine (Kept o) (set_callbacks p o c)
unfolding set_callbacks
set_callbacks-Kept p none c v e = fine p (v, e)
set_callbacks-Kept p (some id) c v e =
    let a = active_instance p id v e in
    rw a.1
      (guarded-Fine a.0.locked _ a.2 (fine _ (put-IsValid p id a.0 (install c a.0) v a.1 a.2, e)))

pub start-Kept :
    (p : Process) (o : Option ℕ)
    → IsValid p
    → p.active ≡ o
    → Fine {A = ℤ × Process} (λ r. Kept o r.1) (start p o)
unfolding start
start-Kept p none v e = fine _ (v, e)
start-Kept p (some id) v e =
    let a = active_instance p id v e in
    elim (Bool-cases a.0.started) [
      | inl b ↦ rw (a.1, b) (fine _ (v, e))
      | inr b ↦ rw (a.1, b) (fine _ (put-IsValid p id a.0 _ v a.1 a.2, e))
    ]

pub set_pin-Kept :
    (p : Process) (o : Option ℕ) (pin value : ℤ)
    → IsValid p
    → p.active ≡ o
    → Fine {A = List Out × Process} (λ r. Kept o r.1) (set_pin p o pin value)
unfolding set_pin
set_pin-Kept p none pin value v e = fine _ (v, e)
set_pin-Kept p (some id) pin value v e =
    let d = deliver_signals-ok p (digital_write p.pins pin value).0 v (
      subst (λ o. All (Signals o) (digital_write p.pins pin value).0) v.pin
        (unfold digital_write in notify-Signals p.pins.callback _ pin value)) in
    rw d.1 (fine _ (unfold digital_write in pins-IsValid p _ refl v, e))

pub log_lem :
    (p : Process) (id : ℕ) (inst : Instance) (message : List ℕ)
    → p.instances id ≡ some inst
    → inst.locked ≡ false
    → (out : List Out) × (log p.instances id message ≡ ok out)
unfolding log
log_lem p id inst message e f = (call_log inst.on_log inst.user_context message, rw (e, f))

after_call-Kept :
    (p : Process) (id : ℕ) (inst : Instance) (message : Option (List ℕ))
    → IsValid p
    → p.active ≡ some id
    → p.instances id ≡ some inst
    → inst.locked ≡ false
    → Fine {A = List Out × Process} (λ r. Kept (some id) r.1) (after_call p id inst message)
after_call-Kept p id inst none v e i f =
    fine _ (put-IsValid p id inst (record inst { worker = testing }) v i f, e)
after_call-Kept p id inst (some message) v e i f =
    rw (log_lem p id inst message i f).1 (fine _ (put-IsValid p id inst (stopped inst) v i f, e))

worker_at-Kept :
    (p : Process) (id : ℕ) (inst : Instance) (w : Worker) (o : Outcome)
    → IsValid p
    → p.active ≡ some id
    → p.instances id ≡ some inst
    → inst.locked ≡ false
    → Fine {A = List Out × Process} (λ r. Kept (some id) r.1) (worker_at p id inst w o)
worker_at-Kept p id inst idle o v e i f = fine _ (v, e)
worker_at-Kept p id inst setting_up o v e i f = after_call-Kept p id inst _ v e i f
worker_at-Kept p id inst testing o v e i f =
    choice-Fine inst.running _ _
      (λ b. fine _ (put-IsValid p id inst (record inst { worker = looping }) v i f, e))
      (λ b. fine _ (put-IsValid p id inst (stopped inst) v i f, e))
worker_at-Kept p id inst looping o v e i f = after_call-Kept p id inst _ v e i f
worker_at-Kept p id inst ended o v e i f = fine _ (v, e)

pub worker_step-Kept :
    (p : Process) (id : ℕ) (o : Outcome)
    → IsValid p
    → p.active ≡ some id
    → Fine {A = List Out × Process} (λ r. Kept (some id) r.1) (worker_step p id o)
unfolding worker_step
worker_step-Kept p id o v e =
    let a = active_instance p id v e in rw a.1 (worker_at-Kept p id a.0 a.0.worker o v e a.1 a.2)

join-Kept :
    (p : Process) (id : ℕ) (os : List Outcome)
    → IsValid p
    → p.active ≡ some id
    → Fine {A = Bool × List Out × Process} (λ r. Kept (some id) r.2) (join p id os)
unfolding join
join-Kept p id [] v e = let a = active_instance p id v e in rw a.1 (fine _ (v, e))
join-Kept p id (o ∷ os) v e =
    let a = active_instance p id v e in
    rw a.1 (
      choice-Fine (is_joined a.0.worker) _ _ (λ b. fine _ (v, e))
        (λ b.
          and_then-Fine (worker_at p id a.0 a.0.worker o) _
            (worker_at-Kept p id a.0 a.0.worker o v e a.1 a.2)
            (λ r k.
              and_then-Fine (join r.1 id os) _ (join-Kept r.1 id os k.0 k.1) (λ t l. fine _ l))))

pub clear_lem : (o : Option ℕ) (id : ℕ) → o ≡ some id → clear o id ≡ none
clear_lem none id e = refl
clear_lem (some a) id e = ground (arith, e)

names-update :
    (o : Option ℕ) (id j : ℕ) (inst : Option Instance)
    → o ≡ some id
    → is_live inst ≡ names o j
    → is_live (if j == id then none else inst) ≡ false
names-update o id j inst e h = elim (Bool-cases (j == id)) [
  | inl q ↦ rw q refl
  | inr q ↦ rw q (h ∙ ap (λ o. names o j) e ∙ q)
]

-- Behind destroy no instance is alive, and nothing is registered with the HAL.
pub release-IsValid :
    (p : Process) (id : ℕ) → IsValid p → p.active ≡ some id → IsValid (release p id)
unfolding release set_data_ready_callback set_line_config_callback set_signal_callback
release-IsValid p id v e = record {
  ready = sym (clear_lem p.active id e);
  line = sym (clear_lem p.active id e);
  pin = sym (clear_lem p.active id e);
  sink = sym (clear_lem p.active id e);
  live =
      λ j. rw (clear_lem p.active id e) (names-update p.active id j (p.instances j) e (v.live j));
  free = λ j. elim (Bool-cases (j == id)) [ inl q ↦ rw q tt | inr q ↦ rw q (v.free j) ];
}

joined-Valid :
    (id : ℕ) (r : Bool × List Out × Process)
    → Kept (some id) r.2
    → Fine {A = Bool × List Out × Process} (λ t. IsValid t.2) (joined id r)
joined-Valid id (true, out, p) k = fine _ (release-IsValid p id k.0 k.1)
joined-Valid id (false, out, p) k = fine _ k.0

pub destroy-Valid :
    (p : Process) (o : Option ℕ) (os : List Outcome)
    → IsValid p
    → p.active ≡ o
    → Fine {A = Bool × List Out × Process} (λ r. IsValid r.2) (destroy p o os)
unfolding destroy request_stop
destroy-Valid p none os v e = fine _ v
destroy-Valid p (some id) os v e =
    let a = active_instance p id v e in
    rw a.1 (
      and_then-Fine (join (request_stop p id a.0) id os) _
        (join-Kept (request_stop p id a.0) id os
          (put-IsValid p id a.0 (record a.0 { running = false }) v a.1 a.2) e)
        (λ r k. joined-Valid id r k))
