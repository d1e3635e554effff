-- ===== src/Host/Ending.antt =====
-- destroy ends.
use bit_magic_zi_modem.Base.{
  ℕ, ◌+◌, ◌≤◌, ◌≡◌, refl, sym, Bool, true, false, Option, none, some, List, [], ◌∷◌, arith, ==_iff,
  length,
}
use bit_magic_zi_modem.Host.Process.{
  Worker, idle, setting_up, testing, looping, ended, Instance, Process, Out, Result, ok,
}
use bit_magic_zi_modem.Host.Abi.{put, request_stop, release, is_joined}
use bit_magic_zi_modem.Host.Worker.{
  Outcome, stopped, after_call, worker_at, worker_step, join, joined, destroy,
}
use bit_magic_zi_modem.Host.Lifetime.{IsValid, Fine, fine, Kept, active_instance, put-IsValid}
use bit_magic_zi_modem.Host.Exports.{
  and_then-Fine, choice-Fine, release-IsValid, log_lem, clear_lem,
}

-- The calls that the thread can still make once `running` is false, and the test behind them.
abbrev rank : Worker → ℕ
rank idle = 0
rank setting_up = 2
rank testing = 1
rank looping = 2
rank ended = 0

not_both : true ≡ false → ⊥
not_both h = cc

rank-joined : (w : Worker) → rank w ≤ 0 → is_joined w ≡ true
rank-joined idle h = refl
rank-joined setting_up h = absurd (omega (arith, h))
rank-joined testing h = absurd (omega (arith, h))
rank-joined looping h = absurd (omega (arith, h))
rank-joined ended h = refl

-- A step of a stopping thread leaves an instance that stops sooner.
abbrev Nearer : Process → ℕ → Worker → Result (List Out × Process) → Type 0
Nearer p id w r =
    (out : List Out) × (inst : Instance) × (r ≡ ok (out, put p id inst))
    × (inst.running ≡ false)
    × (inst.locked ≡ false)
    × (rank inst.worker + 1 ≤ rank w)

after_call-Nearer :
    (p : Process) (id : ℕ) (inst : Instance) (message : Option (List ℕ)) (w : Worker)
    → p.instances id ≡ some inst
    → inst.running ≡ false
    → inst.locked ≡ false
    → rank w ≡ 2
    → Nearer p id w (after_call p id inst message)
after_call-Nearer p id inst none w i r l h =
    ([], record inst { worker = testing }, refl, r, l, omega arith)
after_call-Nearer p id inst (some message) w i r l h =
    let d = log_lem p id inst message i l in (d.0, stopped inst, rw d.1 refl, refl, l, omega arith)

worker_at-Nearer :
    (p : Process) (id : ℕ) (inst : Instance) (w : Worker) (o : Outcome)
    → p.instances id ≡ some inst
    → inst.running ≡ false
    → inst.locked ≡ false
    → is_joined w ≡ false
    → Nearer p id w (worker_at p id inst w o)
worker_at-Nearer p id inst idle o i r l h = absurd (not_both h)
worker_at-Nearer p id inst setting_up o i r l h =
    after_call-Nearer p id inst _ setting_up i r l refl
worker_at-Nearer p id inst testing o i r l h = ([], stopped inst, rw r refl, refl, l, omega arith)
worker_at-Nearer p id inst looping o i r l h = after_call-Nearer p id inst _ looping i r l refl
worker_at-Nearer p id inst ended o i r l h = absurd (not_both h)

put_at : (p : Process) (id : ℕ) (inst : Instance) → (put p id inst).instances id ≡ some inst
put_at p id inst = rw ((==_iff id id).1 refl) refl

join-ends :
    (os : List Outcome) (p : Process) (id : ℕ) (inst : Instance)
    → IsValid p
    → p.active ≡ some id
    → p.instances id ≡ some inst
    → inst.running ≡ false
    → inst.locked ≡ false
    → rank inst.worker ≤ length os
    → Fine {A = Bool × List Out × Process} (λ r. (r.0 ≡ true) × Kept (some id) r.2) (join p id os)
unfolding join worker_step
join-ends [] p id inst v e i r l h = rw i (fine _ (rank-joined inst.worker h, (v, e)))
join-ends (o ∷ os) p id inst v e i r l h = rw i (
    choice-Fine (is_joined inst.worker) _ _ (λ b. fine _ (refl, (v, e)))
      (λ b.
        let s = worker_at-Nearer p id inst inst.worker o i r l b in
        rw s.2 (
          and_then-Fine (join (put p id s.1) id os) _
            (join-ends os (put p id s.1) id s.1 (put-IsValid p id inst s.1 v i s.4) e
              (put_at p id s.1) s.3 s.4 (omega (arith, h, s.5)))
            (λ t k. fine _ k))))

joined-Released :
    (id : ℕ) (r : Bool × List Out × Process)
    → r.0 ≡ true
    → Kept (some id) r.2
    → Fine {A = Bool × List Out × Process}
        (λ t. (t.0 ≡ true) × IsValid t.2 × (t.2.active ≡ none))
        (joined id r)
joined-Released id (true, out, p) e k =
    fine _ (refl, release-IsValid p id k.0 k.1, unfold release in clear_lem p.active id k.1)
joined-Released id (false, out, p) e k = absurd (not_both (sym e))

rank_bound : (w : Worker) → rank w ≤ 2
rank_bound idle = omega arith
rank_bound setting_up = omega arith
rank_bound testing = omega arith
rank_bound looping = omega arith
rank_bound ended = omega arith

-- From a valid process, destroy of the active instance returns once the thread's calls of setup()
-- and loop() have ended twice, however they end and wherever the thread stands; behind it no
-- instance is active, and the process is valid.
pub destroy-ends :
    (p : Process) (id : ℕ) (a b : Outcome) (os : List Outcome)
    → IsValid p
    → p.active ≡ some id
    → Fine {A = Bool × List Out × Process}
        (λ r. (r.0 ≡ true) × IsValid r.2 × (r.2.active ≡ none))
        (destroy p (some id) (a ∷ b ∷ os))
unfolding destroy request_stop
destroy-ends p id a b os v e =
    let i = active_instance p id v e in
    let inst : Instance = record i.0 { running = false } in
    rw i.1 (
      and_then-Fine (join (put p id inst) id (a ∷ b ∷ os)) _
        (join-ends (a ∷ b ∷ os) (put p id inst) id inst (put-IsValid p id i.0 inst v i.1 i.2) e
          (put_at p id inst) refl i.2 (omega (arith, rank_bound inst.worker)))
        (λ r k. joined-Released id r k.0 k.1))
