-- ===== src/Host/Same.antt =====
-- The functions of zimodem_host.cpp that move no byte leave the queues of the serial port, its line
-- settings and the values of the pins as they are.
use bit_magic_zi_modem.Base.{
  ℕ, ◌≡◌, refl, ◌∙◌, Bool, true, false, Option, none, some, codes, List, [], ◌∷◌,
}
use bit_magic_zi_modem.SerialPort.{
  get_line_config, set_line_config_callback, set_data_ready_callback,
}
use bit_magic_zi_modem.Pins.{set_signal_callback}
use bit_magic_zi_modem.Host.Process.{
  Process, Out, Instance, Worker, idle, setting_up, testing, looping, ended, log,
}
use bit_magic_zi_modem.Host.Abi.{
  Callbacks, create, create_at, set_callbacks, start, put, release, request_stop, is_joined,
}
use bit_magic_zi_modem.Host.Worker.{
  Outcome, worker_step, worker_at, after_call, complaint, join, destroy, joined,
}
use bit_magic_zi_modem.Host.Always.{
  Always, through, waits, and_then-Always, and_then_lem, on_instance-Always, choice-Always,
}

-- The two queues, the line settings and the values of the pins.
pub record Same (p q : Process) : Type 0 where
  pub input : q.serial.input ≡ p.serial.input
  pub rx_queue : q.serial.rx_queue ≡ p.serial.rx_queue
  pub line : get_line_config q.serial ≡ get_line_config p.serial
  pub pins : q.pins.value ≡ p.pins.value

pub same : (p : Process) → Same p p
same p = record { input = refl; rx_queue = refl; line = refl; pins = refl }

-- A change of the instances alone.
put-Same : (p : Process) (id : ℕ) (inst : Instance) → Same p (put p id inst)
put-Same p id inst = record { input = refl; rx_queue = refl; line = refl; pins = refl }

pub Same-trans : {p q r : Process} → Same p q → Same q r → Same p r
Same-trans a b = record {
  input = b.input ∙ a.input;
  rx_queue = b.rx_queue ∙ a.rx_queue;
  line = b.line ∙ a.line;
  pins = b.pins ∙ a.pins;
}

pub create-Same :
    (p : Process) (cfg : Option (Option (List ℕ))) (made : Bool) (memory : Option ℕ)
    → Same p (create p cfg made memory).1
unfolding create set_line_config_callback set_data_ready_callback set_signal_callback
    get_line_config
create-Same p none made memory = same p
create-Same p (some none) made memory = same p
create-Same p (some (some [])) made memory = same p
create-Same p (some (some (c ∷ cs))) made memory = at p.active made memory
  where
    at : (a : Option ℕ) (m : Bool) (n : Option ℕ) → Same p (create_at p a (c ∷ cs) m n).1
    at (some id) m n = same p
    at none false n = record { input = refl; rx_queue = refl; line = refl; pins = refl }
    at none true none = record { input = refl; rx_queue = refl; line = refl; pins = refl }
    at none true (some id) = record { input = refl; rx_queue = refl; line = refl; pins = refl }

pub release-Same : (p : Process) (id : ℕ) → Same p (release p id)
unfolding release set_line_config_callback set_data_ready_callback set_signal_callback
    get_line_config
release-Same p id = record { input = refl; rx_queue = refl; line = refl; pins = refl }

pub set_callbacks-Same :
    (p : Process) (o : Option ℕ) (c : Callbacks) → Always (λ q. Same p q) (set_callbacks p o c)
unfolding set_callbacks
set_callbacks-Same p none c = through p (same p)
set_callbacks-Same p (some id) c =
    on_instance-Always (p.instances id) _
      (λ inst. choice-Always inst.locked _ _ waits (through _ (put-Same p id _)))

pub start-Same : (p : Process) (o : Option ℕ) → Always (λ r. Same p r.1) (start p o)
unfolding start
start-Same p none = through _ (same p)
start-Same p (some id) =
    on_instance-Always (p.instances id) _
      (λ inst. choice-Always inst.started _ _ (through _ (same p)) (through _ (put-Same p id _)))

after_call-Same :
    (p : Process) (id : ℕ) (inst : Instance) (m : Option (List ℕ))
    → Always (λ r. Same p r.1) (after_call p id inst m)
after_call-Same p id inst none = through _ (put-Same p id _)
after_call-Same p id inst (some message) =
    and_then_lem (log p.instances id message) _ (λ out. through _ (put-Same p id _))

worker_at-Same :
    (p : Process) (id : ℕ) (inst : Instance) (t : Worker) (o : Outcome)
    → Always (λ r. Same p r.1) (worker_at p id inst t o)
worker_at-Same p id inst idle o = through _ (same p)
worker_at-Same p id inst setting_up o = after_call-Same p id inst (complaint (codes "setup()") o)
worker_at-Same p id inst testing o =
    choice-Always inst.running _ _ (through _ (put-Same p id _)) (through _ (put-Same p id _))
worker_at-Same p id inst looping o = after_call-Same p id inst (complaint (codes "loop()") o)
worker_at-Same p id inst ended o = through _ (same p)

pub worker_step-Same :
    (p : Process) (id : ℕ) (o : Outcome) → Always (λ r. Same p r.1) (worker_step p id o)
unfolding worker_step
worker_step-Same p id o =
    on_instance-Always (p.instances id) _ (λ inst. worker_at-Same p id inst inst.worker o)

join-Same : (p : Process) (id : ℕ) (os : List Outcome) → Always (λ r. Same p r.2) (join p id os)
unfolding join
join-Same p id [] = on_instance-Always (p.instances id) _ (λ inst. through _ (same p))
join-Same p id (o ∷ os) = on_instance-Always (p.instances id) _ (λ inst.
    choice-Always (is_joined inst.worker) _ _ (through _ (same p)) (
      and_then-Always (worker_step p id o) _ (worker_step-Same p id o) (λ r a.
        and_then-Always (join r.1 id os) _ (join-Same r.1 id os)
          (λ t b. through _ (Same-trans a b)))))

joined-Same :
    (id : ℕ) (p : Process) (t : Bool × List Out × Process)
    → Same p t.2
    → Always (λ r. Same p r.2) (joined id t)
joined-Same id p (true, out, q) a = through _ (Same-trans a (release-Same q id))
joined-Same id p (false, out, q) a = through _ a

pub destroy-Same :
    (p : Process) (o : Option ℕ) (os : List Outcome) → Always (λ r. Same p r.2) (destroy p o os)
unfolding destroy request_stop
destroy-Same p none os = through _ (same p)
destroy-Same p (some id) os = on_instance-Always (p.instances id) _ (λ inst.
    and_then-Always (join (request_stop p id inst) id os) _
      (join-Same (request_stop p id inst) id os)
      (λ t a. joined-Same id p t (Same-trans (put-Same p id _) a)))
