-- ===== src/Host/Threads/Stopping.antt =====
-- While a thread joins, `running` is false: nobody starts the instance again.
use bit_magic_zi_modem.Base.{
  ℕ, ◌≡◌, ◌≢◌, refl, sym, ap, ◌∙◌, inl, inr, true, false, Option, none, some, List, ◌==◌, ==_iff,
  Bool-cases, if◌then◌else◌,
}
use bit_magic_zi_modem.Host.Process.{
  Worker, idle, setting_up, testing, looping, ended, Instance, Process, Firmware, prints, reads,
  writes_pin, begins, logs,
}
use bit_magic_zi_modem.Host.Abi.{put, write_serial, host_rx_read, request_stop}
use bit_magic_zi_modem.Host.Threads.{
  Delivery, readies, signals, lines, says, target, Pc, joins, System, hal, turned, update, move,
  on_process, entered, Step, creates, sets_callbacks, starts, feeds, takes, sets_pin, acts, turns,
  throws, calls, dangles, returns, nests_pin, nests_callbacks, stops, releases,
}
use bit_magic_zi_modem.Host.Threads.Calm.{IsPlain, rests, owing, update_cases}
use bit_magic_zi_modem.Host.Threads.Crossing.{released_rest}
use bit_magic_zi_modem.Host.Threads.Raised.{hal-IsPlain}
use bit_magic_zi_modem.Host.Threads.Invariant.{Inv, Step-Inv}

pub record IsStopping (s : System) : Type 0 where
  pub stop :
      (i id : ℕ) (inst : Instance)
      → s.pc i ≡ joins id
      → s.process.instances id ≡ some inst
      → inst.running ≡ false

-- Each instance of `q` was one of `p`, and none is set running.
abbrev Slower : (ℕ → Option Instance) → (ℕ → Option Instance) → Type 0
Slower f g =
    (id : ℕ) (inst : Instance)
    → g id ≡ some inst
    → (old : Instance) × (f id ≡ some old) × (old.running ≡ false → inst.running ≡ false)

Slower-refl : (f : ℕ → Option Instance) → Slower f f
Slower-refl f id inst e = (inst, e, λ h. h)

Slower-put :
    (p : Process) (id : ℕ) (old inst : Instance)
    → p.instances id ≡ some old
    → (old.running ≡ false → inst.running ≡ false)
    → Slower p.instances (put p id inst).instances
Slower-put p id old inst e h j x q = elim (Bool-cases (j == id)) [
  | inl b ↦
      (old, ap p.instances ((==_iff j id).0 b) ∙ e, λ r. ap (λ y. y.running) (sym (same b)) ∙ h r)
  | inr b ↦ (x, other b, λ r. r)
]
  where
    same : (j == id) ≡ true → inst ≡ x
    same b = cc (ap (λ c. if c then some inst else p.instances j) (sym b) ∙ q)

    other : (j == id) ≡ false → p.instances j ≡ some x
    other b = ap (λ c. if c then some inst else p.instances j) (sym b) ∙ q

-- A thread behind a change of another's place that is not a join.
old_join :
    (pc : ℕ → Pc) (i : ℕ) (x : Pc)
    → ((m : ℕ) → x ≢ joins m)
    → (k m : ℕ) → update pc i x k ≡ joins m
    → pc k ≡ joins m
old_join pc i x n k m q = elim (update_cases pc i x k (joins m) q) [
  | inl h ↦ absurd (n m h.1)
  | inr h ↦ h.1
]

plain_join : (a : Option ℕ) (x : Pc) → IsPlain a x → (m : ℕ) → x ≢ joins m
plain_join a x rests m q = cc (q)
plain_join a x (owing d e) m q = cc (q)

later-IsStopping :
    (s t : System)
    → IsStopping s
    → Slower s.process.instances t.process.instances
    → ((k m : ℕ) → t.pc k ≡ joins m → s.pc k ≡ joins m)
    → IsStopping t
later-IsStopping s t v slow old = record {
  stop = λ i id inst q e. let o = slow id inst e in o.2 (v.stop i id o.0 (old i id q) o.1);
}

put-IsStopping :
    (s : System) (id : ℕ) (old inst : Instance)
    → IsStopping s
    → s.process.instances id ≡ some old
    → (old.running ≡ false → inst.running ≡ false)
    → IsStopping (on_process s (put s.process id inst))
put-IsStopping s id old inst v e h =
    later-IsStopping s _ v (Slower-put s.process id old inst e h) (λ k m q. q)

hal-Slower : (p : Process) (a : Firmware) → Slower p.instances (hal p a).1.instances
unfolding hal
hal-Slower p (prints bytes) = Slower-refl p.instances
hal-Slower p reads = Slower-refl p.instances
hal-Slower p (writes_pin pin value) = Slower-refl p.instances
hal-Slower p (begins b) = Slower-refl p.instances
hal-Slower p (logs message) = Slower-refl p.instances

feed-Slower :
    (p : Process) (o : Option ℕ) (bytes : List ℕ)
    → Slower p.instances (write_serial p o bytes).1.instances
unfolding write_serial
feed-Slower p none bytes = Slower-refl p.instances
feed-Slower p (some id) bytes = Slower-refl p.instances

take-Slower : (p : Process) (o : Option ℕ) → Slower p.instances (host_rx_read p o).1.instances
unfolding host_rx_read
take-Slower p none = Slower-refl p.instances
take-Slower p (some id) = Slower-refl p.instances

hal-IsStopping :
    (s : System) (i : ℕ) (a : Firmware)
    → Inv s
    → IsStopping s
    → IsStopping (move s i (hal s.process a).0 (hal s.process a).1)
hal-IsStopping s i a inv v =
    later-IsStopping s _ v (hal-Slower s.process a)
      (old_join s.pc i _ (plain_join _ _ (hal-IsPlain s.process a inv.wired)))

turned_running :
    (w : Worker) (inst : Instance) → inst.running ≡ false → (turned w inst).running ≡ false
turned_running idle inst h = h
turned_running setting_up inst h = h
turned_running testing inst h = rw h refl
turned_running looping inst h = h
turned_running ended inst h = h

call-IsStopping :
    (s : System) (i : ℕ) (d : Delivery) (inst : Instance)
    → IsStopping s
    → s.process.instances (target d) ≡ some inst
    → IsStopping (entered s i d inst)
call-IsStopping s i (lines id baud config) inst v e =
    later-IsStopping s _ v (Slower-refl s.process.instances) (old_join s.pc i _ (λ m q. cc (q)))
call-IsStopping s i (readies id) inst v e =
    later-IsStopping s _ v (Slower-put s.process id inst _ e (λ h. h))
      (old_join s.pc i _ (λ m q. cc (q)))
call-IsStopping s i (signals id pin value) inst v e =
    later-IsStopping s _ v (Slower-put s.process id inst _ e (λ h. h))
      (old_join s.pc i _ (λ m q. cc (q)))
call-IsStopping s i (says id message) inst v e =
    later-IsStopping s _ v (Slower-put s.process id inst _ e (λ h. h))
      (old_join s.pc i _ (λ m q. cc (q)))

pub put_self : (p : Process) (id : ℕ) (inst : Instance) → (put p id inst).instances id ≡ some inst
put_self p id inst = rw ((==_iff id id).1 refl) refl

-- The instance that destroy has just told to stop.
put_stopped :
    (p : Process) (id m : ℕ) (inst x : Instance)
    → inst.running ≡ false
    → some id ≡ some m
    → (put p id inst).instances m ≡ some x
    → x.running ≡ false
put_stopped p id m inst x f e h =
    let q : id ≡ m = cc (e) in
    let r : inst ≡ x = cc (sym (put_self p id inst) ∙ ap (put p id inst).instances q ∙ h) in
    ap (λ y. y.running) (sym r) ∙ f

pub Step-IsStopping : (s t : System) → Step true s t → Inv s → IsStopping s → IsStopping t
unfolding request_stop
Step-IsStopping s t (creates dir id e) inv v = record {
  stop = λ k m inst q h. cc (e, (inv.calm.joining k m q).0);
}
Step-IsStopping s t (sets_callbacks i id inst c z r e f may) inv v =
    put-IsStopping s id inst _ v e (λ h. h)
Step-IsStopping s t (starts i id inst z r e f may) inv v = record {
  stop = λ k m x q h. absurd (may refl k m q);
}
Step-IsStopping s t (feeds bytes) inv v =
    later-IsStopping s _ v (feed-Slower s.process _ bytes) (λ k m q. q)
Step-IsStopping s t takes inv v = later-IsStopping s _ v (take-Slower s.process _) (λ k m q. q)
Step-IsStopping s t (sets_pin i pin value z r may) inv v = hal-IsStopping s i _ inv v
Step-IsStopping s t (acts id inst a r e c) inv v = hal-IsStopping s 0 a inv v
Step-IsStopping s t (turns id inst r e w) inv v =
    put-IsStopping s id inst _ v e (turned_running inst.worker inst)
Step-IsStopping s t (throws id inst message r e c) inv v =
    later-IsStopping s _ v (Slower-put s.process id inst _ e (λ h. refl))
      (old_join s.pc 0 _ (λ m q. cc (q)))
Step-IsStopping s t (calls i d inst o e f) inv v = call-IsStopping s i d inst v e
Step-IsStopping s t (dangles i d o e) inv v =
    later-IsStopping s _ v (Slower-refl s.process.instances) (old_join s.pc i _ (λ m q. cc (q)))
Step-IsStopping s t (returns i id inst h e) inv v =
    later-IsStopping s _ v (Slower-put s.process id inst _ e (λ r. r))
      (old_join s.pc i _ (λ m q. cc (q)))
Step-IsStopping s t (nests_pin i id pin value h p c) inv v = cc (c)
Step-IsStopping s t (nests_callbacks i id h c) inv v = cc (c)
Step-IsStopping s t (stops i id inst z r a e may) inv v = record {
  stop = λ k m x q h.
      let now = (Step-Inv s _ (stops i id inst z r a e may) inv).calm.joining k m q in
      put_stopped s.process id m _ x refl (sym a ∙ now.0) h;
}
Step-IsStopping s t (releases i id inst e z f j) inv v = record {
  stop = λ k m x q h. cc (released_rest _ _ s.pc inv.calm i id e z k, q);
}
