-- ===== src/Host/Threads/Progress.antt =====
-- The steps that finish what a thread is in the middle of, and how they bring it back from a
-- callback that it is in or owes.
use bit_magic_zi_modem.Base.{ℕ, ◌≡◌, ◌≢◌, refl, ap, ◌∙◌, Bool, true, false, some}
use bit_magic_zi_modem.Host.Process.{Instance}
use bit_magic_zi_modem.Host.Abi.{put}
use bit_magic_zi_modem.Host.Threads.{
  Delivery, readies, signals, lines, says, target, resting, owes, holds, System, update, move,
  entered, Step, creates, sets_callbacks, starts, feeds, takes, sets_pin, acts, turns, throws,
  calls, dangles, returns, nests_pin, nests_callbacks, stops, releases, Reach, here, next,
}
use bit_magic_zi_modem.Host.Threads.Calm.{update_self, update_other}
use bit_magic_zi_modem.Host.Threads.Wired.{active_live}
use bit_magic_zi_modem.Host.Threads.Invariant.{Inv, Step-Inv, start_state, start-Inv}
use bit_magic_zi_modem.Host.Threads.Stopping.{IsStopping, Step-IsStopping}

-- A step of a thread on the way out of what it is in: it makes the call that it owes, leaves a
-- callback, returns from setup() or loop(), or gets behind the join.
abbrev pub is_inner : {careful : Bool} {s t : System} → Step careful s t → Bool
is_inner (creates dir id e) = false
is_inner (sets_callbacks i id inst c z r e f may) = false
is_inner (starts i id inst z r e f may) = false
is_inner (feeds bytes) = false
is_inner takes = false
is_inner (sets_pin i pin value z r may) = false
is_inner (acts id inst a r e c) = false
is_inner (turns id inst r e w) = true
is_inner (throws id inst message r e c) = false
is_inner (calls i d inst o e f) = true
is_inner (dangles i d o e) = false
is_inner (returns i id inst h e) = true
is_inner (nests_pin i id pin value h p c) = false
is_inner (nests_callbacks i id h c) = false
is_inner (stops i id inst z r a e may) = false
is_inner (releases i id inst e z f j) = true

-- Some inner steps, one after the other.
pub data Finishes : System → System → Type 0 where
  done : {s : System} → Finishes s s
  goes : {s t u : System} (x : Step true s t) → is_inner x ≡ true → Finishes t u → Finishes s u

pub Finishes-trans : {s t u : System} → Finishes s t → Finishes t u → Finishes s u
Finishes-trans done q = q
Finishes-trans (goes x e p) q = goes x e (Finishes-trans p q)

pub record IsSafe (s : System) : Type 0 where
  pub inv : Inv s
  pub stopping : IsStopping s

pub Step-IsSafe : (s t : System) → Step true s t → IsSafe s → IsSafe t
Step-IsSafe s t x g = record {
  inv = Step-Inv s t x g.inv;
  stopping = Step-IsStopping s t x g.inv g.stopping;
}

start-IsSafe : IsSafe start_state
start-IsSafe = record { inv = start-Inv; stopping = record { stop = λ i id inst e h. cc (e) } }

pub Reach-IsSafe : (t : System) → Reach true start_state t → IsSafe t
Reach-IsSafe t here = start-IsSafe
Reach-IsSafe t (next {t = u} r x) = Step-IsSafe u t x (Reach-IsSafe u r)

-- Thread `i` gets back to rest, and the others stand where they stood.
pub record Leaves (s : System) (i : ℕ) : Type 0 where
  pub left : System
  pub way : Finishes s left
  pub safe : IsSafe left
  pub rest : left.pc i ≡ resting
  pub others : (j : ℕ) → j ≢ i → left.pc j ≡ s.pc j

Step-Leaves :
    (s t : System) (i : ℕ) (x : Step true s t)
    → is_inner x ≡ true
    → ((j : ℕ) → j ≢ i → t.pc j ≡ s.pc j)
    → Leaves t i
    → Leaves s i
Step-Leaves s t i x e h l = record {
  left = l.left;
  way = goes x e l.way;
  safe = l.safe;
  rest = l.rest;
  others = λ j n. l.others j n ∙ h j n;
}

-- A thread in a callback leaves it.
pub hold-Leaves : (s : System) (i id : ℕ) → IsSafe s → s.pc i ≡ holds id → Leaves s i
hold-Leaves s i id g h =
    let a = active_live s.process id g.inv.wired (g.inv.calm.held i id h).0 in
    let x : Step true s (move s i resting (put s.process id (record a.0 { locked = false }))) =
      returns i id a.0 h a.1 in
    record {
      left = move s i resting (put s.process id (record a.0 { locked = false }));
      way = goes x refl done;
      safe = Step-IsSafe s _ x g;
      rest = update_self s.pc i resting;
      others = update_other s.pc i resting;
    }

-- A thread that owes a call makes it, once the mutex is free, and comes back from it.
pub call-Leaves :
    (s : System) (i : ℕ) (d : Delivery) (inst : Instance)
    → IsSafe s
    → s.pc i ≡ owes d
    → s.process.instances (target d) ≡ some inst
    → inst.locked ≡ false
    → Leaves s i
call-Leaves s i d inst g o e f = go d o e
  where
    hold :
        (x : Delivery) (id : ℕ) (o : s.pc i ≡ owes x)
        (e : s.process.instances (target x) ≡ some inst)
        → (entered s i x inst).pc ≡ update s.pc i (holds id)
        → Leaves s i
    hold x id o e p =
        Step-Leaves s _ i (calls i x inst o e f) refl
          (λ j n. ap (λ h. h j) p ∙ update_other s.pc i (holds id) j n)
          (hold-Leaves _ i id (Step-IsSafe s _ (calls i x inst o e f) g)
            (ap (λ h. h i) p ∙ update_self s.pc i (holds id)))

    go : (x : Delivery) → s.pc i ≡ owes x → s.process.instances (target x) ≡ some inst → Leaves s i
    go (readies id) o e = hold (readies id) id o e refl
    go (signals id pin value) o e = hold (signals id pin value) id o e refl
    go (says id message) o e = hold (says id message) id o e refl
    go (lines id baud config) o e = record {
      left = entered s i (lines id baud config) inst;
      way = goes (calls i (lines id baud config) inst o e f) refl done;
      safe = Step-IsSafe s _ (calls i (lines id baud config) inst o e f) g;
      rest = update_self s.pc i resting;
      others = update_other s.pc i resting;
    }
