-- ===== src/Host/Threads/Invariant.antt =====
-- With a careful host, over every interleaving of its threads with the background thread: no thread
-- ever waits for the mutex of an instance that was freed, and callback_mutex has one holder.
use bit_magic_zi_modem.Base.{
  zero, suc, ◌+◌, ==_iff, ℕ, ◌≡◌, ◌≢◌, refl, sym, ap, ◌∙◌, inl, inr, Bool, true, false, Option,
  none, some, List, arith,
}
use bit_magic_zi_modem.Host.Process.{
  Worker, idle, setting_up, testing, looping, ended, Instance, Process, Firmware, writes_pin,
}
use bit_magic_zi_modem.Host.Calls.{fresh}
use bit_magic_zi_modem.Host.Abi.{create_made, put, request_stop, release}
use bit_magic_zi_modem.Host.Worker.{stopped}
use bit_magic_zi_modem.Host.Threads.{
  Delivery, readies, signals, lines, says, target, Pc, resting, owes, holds, joins, faulted, System,
  hal, turned, move, on_process, entered, Step, creates, sets_callbacks, starts, feeds, takes,
  sets_pin, acts, turns, throws, calls, dangles, returns, nests_pin, nests_callbacks, stops,
  releases, Reach, here, next,
}
use bit_magic_zi_modem.Host.Threads.Calm.{
  IsCalm, rests, owing, plain-IsCalm, rest-IsCalm, no_instance,
}
use bit_magic_zi_modem.Host.Threads.Crossing.{
  enter-IsCalm, leave-IsCalm, join-IsCalm, released_rest,
}
use bit_magic_zi_modem.Host.Threads.Wired.{
  IsWired, lock_of, live_active, active_live, lock_of_live, put-IsWired, lock_of-put,
  register-IsWired, release-IsWired, release_active,
}
use bit_magic_zi_modem.Host.Threads.Raised.{hal-IsPlain, hal-IsWired, feed-IsWired, take-IsWired}

pub record Inv (s : System) : Type 0 where
  pub wired : IsWired s.process
  pub calm : IsCalm s.process.active (lock_of s.process) s.pc

-- No thread has used the library yet.
abbrev pub start_state : System
start_state = record { process = fresh; pc = λ i. resting }

pub start-Inv : Inv start_state
start-Inv = record {
  wired = record { ready = refl; line = refl; pin = refl; sink = refl; live = λ j. refl };
  calm = rest-IsCalm none (λ i. resting) (λ j. refl);
}

-- The threads stand as before, against a process with the same active instance and mutex.
same-IsCalm :
    (a b : Option ℕ) (l m : Bool) (pc : ℕ → Pc) → b ≡ a → m ≡ l → IsCalm a l pc → IsCalm b m pc
same-IsCalm a b l m pc p q c = rw (p, q) c

on_process-Inv :
    (s : System) (p : Process)
    → Inv s
    → IsWired p × (p.active ≡ s.process.active) × (lock_of p ≡ lock_of s.process)
    → Inv (on_process s p)
on_process-Inv s p v h = record { wired = h.0; calm = same-IsCalm _ _ _ _ s.pc h.1 h.2 v.calm }

-- A live instance changes, and keeps its mutex as it is.
put-Inv :
    (s : System) (id : ℕ) (old inst : Instance)
    → Inv s
    → s.process.instances id ≡ some old
    → inst.locked ≡ old.locked
    → Inv (on_process s (put s.process id inst))
put-Inv s id old inst v e l =
    let a = live_active s.process id old v.wired e in
    on_process-Inv s _ v (
      put-IsWired s.process id old inst v.wired e,
      refl,
      lock_of-put s.process id inst a ∙ l ∙ sym (lock_of_live s.process id old a e),
    )

turned_locked : (w : Worker) (inst : Instance) → (turned w inst).locked ≡ inst.locked
turned_locked idle inst = refl
turned_locked setting_up inst = refl
turned_locked testing inst = ground arith
turned_locked looping inst = refl
turned_locked ended inst = refl

-- A thread at rest goes on behind a call of the HAL.
hal-Inv :
    (s : System) (i : ℕ) (a : Firmware)
    → Inv s
    → s.pc i ≡ resting
    → ((k id : ℕ) → s.pc k ≡ joins id → i ≡ 0)
    → Inv (move s i (hal s.process a).0 (hal s.process a).1)
hal-Inv s i a v e h =
    let w = hal-IsWired s.process a v.wired in
    record {
      wired = w.0;
      calm = same-IsCalm _ _ _ _ _ w.1 w.2 (
          plain-IsCalm _ _ s.pc v.calm i _ (λ id q. cc (e, q)) (λ id q. cc (e, q))
            (hal-IsPlain s.process a v.wired) (λ k id q. inl (h k id q)));
    }

-- While a thread joins, the only other one that is not at rest is the background thread.
pub joined_zero :
    (a : Option ℕ) (l : Bool) (pc : ℕ → Pc) (i k m : ℕ)
    → IsCalm a l pc
    → pc i ≢ resting
    → ((id : ℕ) → pc i ≢ joins id)
    → pc k ≡ joins m
    → i ≡ 0
joined_zero a l pc zero k m c n h q = refl
joined_zero a l pc (suc i) k m c n h q = elim (c.alone k m (suc i) q (omega arith)) [
  | inl o ↦ absurd (h m (ap pc o ∙ q))
  | inr r ↦ absurd (n r)
]

-- A thread with the callback of the active instance takes the mutex.
lock-Inv :
    (s : System) (i id : ℕ) (inst : Instance)
    → Inv s
    → s.process.active ≡ some id
    → s.process.instances id ≡ some inst
    → inst.locked ≡ false
    → ((k m : ℕ) → s.pc k ≡ joins m → i ≡ 0)
    → Inv (move s i (holds id) (put s.process id (record inst { locked = true })))
lock-Inv s i id inst v a e f h = record {
  wired = put-IsWired s.process id inst _ v.wired e;
  calm =
      same-IsCalm _ _ _ _ _ refl (lock_of-put s.process id _ a)
        (enter-IsCalm _ _ s.pc v.calm i id (lock_of_live s.process id inst a e ∙ f) a h);
}

call-Inv :
    (s : System) (i : ℕ) (d : Delivery) (inst : Instance)
    → Inv s
    → s.pc i ≡ owes d
    → s.process.instances (target d) ≡ some inst
    → inst.locked ≡ false
    → Inv (entered s i d inst)
call-Inv s i d inst v o e f = go d o e
  where
    joined : (x : Delivery) → s.pc i ≡ owes x → (k m : ℕ) → s.pc k ≡ joins m → i ≡ 0
    joined x q k m = joined_zero _ _ s.pc i k m v.calm (λ r. cc (q, r)) (λ id r. cc (q, r))

    go :
        (x : Delivery)
        → s.pc i ≡ owes x
        → s.process.instances (target x) ≡ some inst
        → Inv (entered s i x inst)
    go (readies id) q r = lock-Inv s i id inst v (v.calm.owed i _ q) r f (joined _ q)
    go (signals id pin value) q r = lock-Inv s i id inst v (v.calm.owed i _ q) r f (joined _ q)
    go (says id message) q r = lock-Inv s i id inst v (v.calm.owed i _ q) r f (joined _ q)
    go (lines id baud config) q r = record {
      wired = v.wired;
      calm =
          plain-IsCalm _ _ s.pc v.calm i resting (λ m u. cc (q, u)) (λ m u. cc (q, u)) rests
            (λ k m u. inr refl);
    }

create-Inv :
    (s : System) (dir : List ℕ) (id : ℕ)
    → Inv s
    → s.process.active ≡ none
    → Inv (on_process s (create_made (record s.process { root = dir }) true (some id)).1)
create-Inv s dir id v e = record {
  wired = register-IsWired _ id wired e;
  calm = rw ((==_iff id id).1 refl) (
      rest-IsCalm (some id) s.pc
        (no_instance (lock_of s.process) s.pc (same-IsCalm _ _ _ _ s.pc (sym e) refl v.calm)));
}
  where
    wired : IsWired (record s.process { root = dir; net_uses = s.process.net_uses + 1 })
    wired = record {
      ready = v.wired.ready;
      line = v.wired.line;
      pin = v.wired.pin;
      sink = v.wired.sink;
      live = v.wired.live;
    }

release-Inv :
    (s : System) (i id : ℕ)
    → Inv s
    → s.pc i ≡ joins id
    → s.pc 0 ≡ resting
    → Inv (move s i resting (release s.process id))
release-Inv s i id v e z =
    let a = (v.calm.joining i id e).0 in
    record {
      wired = release-IsWired s.process id v.wired a;
      calm =
          same-IsCalm none _ false _ _ (release_active s.process id a)
            (free (release s.process id) (release_active s.process id a))
            (rest-IsCalm none _ (released_rest _ _ s.pc v.calm i id e z));
    }
  where
    free : (p : Process) → p.active ≡ none → lock_of p ≡ false
    free p q = rw q refl

pub Step-Inv : (s t : System) → Step true s t → Inv s → Inv t
unfolding request_stop
Step-Inv s t (creates dir id e) v = create-Inv s dir id v e
Step-Inv s t (sets_callbacks i id inst c z r e f may) v = put-Inv s id inst _ v e refl
Step-Inv s t (starts i id inst z r e f may) v = put-Inv s id inst _ v e refl
Step-Inv s t (feeds bytes) v = on_process-Inv s _ v (feed-IsWired s.process _ bytes v.wired)
Step-Inv s t takes v = on_process-Inv s _ v (take-IsWired s.process _ v.wired)
Step-Inv s t (sets_pin i pin value z r may) v =
    hal-Inv s i (writes_pin pin value) v r (λ k id q. absurd (may refl k id q))
Step-Inv s t (acts id inst a r e c) v = hal-Inv s 0 a v r (λ k m q. refl)
Step-Inv s t (turns id inst r e w) v = put-Inv s id inst _ v e (turned_locked inst.worker inst)
Step-Inv s t (throws id inst message r e c) v =
    let w = put-Inv s id inst (stopped inst) v e refl in
    record {
      wired = w.wired;
      calm =
          plain-IsCalm _ _ s.pc w.calm 0 _ (λ k q. cc (r, q)) (λ k q. cc (r, q))
            (owing (says id message) (live_active s.process id inst v.wired e)) (λ k m q. inl refl);
    }
Step-Inv s t (calls i d inst o e f) v = call-Inv s i d inst v o e f
Step-Inv s t (dangles i d o e) v =
    let t = active_live s.process (target d) v.wired (v.calm.owed i d o) in cc (e, t.1)
Step-Inv s t (returns i id inst h e) v = record {
  wired = put-IsWired s.process id inst _ v.wired e;
  calm =
      same-IsCalm _ _ _ _ _ refl (lock_of-put s.process id _ (v.calm.held i id h).0)
        (leave-IsCalm _ _ s.pc v.calm i id h);
}
Step-Inv s t (nests_pin i id pin value h p c) v = cc (c)
Step-Inv s t (nests_callbacks i id h c) v = cc (c)
Step-Inv s t (stops i id inst z r a e may) v =
    let w = put-Inv s id inst (record inst { running = false }) v e refl in
    record { wired = w.wired; calm = join-IsCalm _ _ s.pc w.calm i id z a (may refl) }
Step-Inv s t (releases i id inst e z f j) v = release-Inv s i id v e z

pub Reach-Inv : (s t : System) → Reach true s t → Inv s → Inv t
Reach-Inv s t here v = v
Reach-Inv s t (next {t = u} r x) v = Step-Inv u t x (Reach-Inv s u r v)

-- In every state that a careful host reaches from the start, whatever its threads and the
-- background thread do: no thread has run into the mutex of a freed instance, and two threads that
-- hold callback_mutex are the same thread.
-- A careful host calls set_callbacks, start and set_pin only while no destroy runs, and destroy
-- only while its other threads are out of the library; inside of a callback that runs under
-- callback_mutex it makes no call of set_pin or set_callbacks, and inside of any callback none of
-- start, create or destroy.
pub Reach-safe :
    (t : System)
    → Reach true start_state t
    → ((i : ℕ) → t.pc i ≢ faulted) × ((i j id k : ℕ) → t.pc i ≡ holds id → t.pc j ≡ holds k → i ≡ j)
Reach-safe t r = let v = Reach-Inv start_state t r start-Inv in (v.calm.sound, v.calm.one)
