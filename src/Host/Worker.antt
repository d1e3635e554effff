-- ===== src/Host/Worker.antt =====
-- The background thread, `run` of zimodem_host.cpp, step by step, and destroy, which joins it.
use bit_magic_zi_modem.Base.{
  ℕ, Bool, true, false, Option, none, some, List, [], ◌∷◌, ◌++◌, if◌then◌else◌, codes,
}
use bit_magic_zi_modem.Host.Process.{
  Worker, idle, setting_up, testing, looping, ended, Instance, Process, Out, Result, ok, and_then,
  log,
}
use bit_magic_zi_modem.Host.Abi.{at_instance, put, request_stop, release, is_joined}

-- How a call of setup() or loop() ends.
pub data Outcome : Type 0 where
  returns : Outcome
  throws : List ℕ → Outcome
  throws_other : Outcome

-- The message that the handler around the call logs.
abbrev pub complaint : List ℕ → Outcome → Option (List ℕ)
complaint call returns = none
complaint call (throws what) = some (call ++ codes " threw: " ++ what)
complaint call throws_other = some (call ++ codes " threw an unrecognized exception")

abbrev pub stopped : Instance → Instance
stopped inst = record inst { running = false; worker = ended }

-- Behind a call of setup() or loop(): on to the test of `running`, or to the end with a message.
abbrev pub after_call : Process → ℕ → Instance → Option (List ℕ) → Result (List Out × Process)
after_call p id inst none = ok ([], put p id (record inst { worker = testing }))
after_call p id inst (some message) =
    and_then (log p.instances id message) (λ out. ok (out, put p id (stopped inst)))

abbrev pub worker_at : Process → ℕ → Instance → Worker → Outcome → Result (List Out × Process)
worker_at p id inst idle o = ok ([], p)
worker_at p id inst setting_up o = after_call p id inst (complaint (codes "setup()") o)
worker_at p id inst testing o =
    if inst.running
    then ok ([], put p id (record inst { worker = looping }))
    else ok ([], put p id (stopped inst))
worker_at p id inst looping o = after_call p id inst (complaint (codes "loop()") o)
worker_at p id inst ended o = ok ([], p)

unfoldable pub worker_step : Process → ℕ → Outcome → Result (List Out × Process)
unfolding log
worker_step p id o = at_instance p id (λ inst. worker_at p id inst inst.worker o)

-- The join: the thread's steps until it is at its end, and whether it got there.
unfoldable pub join : Process → ℕ → List Outcome → Result (Bool × List Out × Process)
unfolding worker_step
join p id [] = at_instance p id (λ inst. ok (is_joined inst.worker, [], p))
join p id (o ∷ os) = at_instance p id (λ inst.
    if is_joined inst.worker
    then ok (true, [], p)
    else and_then (worker_step p id o)
        (λ r. and_then (join r.1 id os) (λ t. ok (t.0, r.0 ++ t.1, t.2))))

-- What destroy does once the join is over, or is still waiting.
abbrev pub joined : ℕ → Bool × List Out × Process → Result (Bool × List Out × Process)
joined id (true, out, p) = ok (true, out, release p id)
joined id (false, out, p) = ok (false, out, p)

-- zimodem_host_destroy; the first part of the answer says whether it returned. `outcomes` are how
-- the thread's calls of setup() and loop() end from now on.
unfoldable pub destroy : Process → Option ℕ → List Outcome → Result (Bool × List Out × Process)
destroy p none outcomes = ok (true, [], p)
destroy p (some id) outcomes =
    at_instance p id (λ inst. and_then (join (request_stop p id inst) id outcomes) (joined id))
