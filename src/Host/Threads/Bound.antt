-- ===== src/Host/Threads/Bound.antt =====
-- While a thread joins, the steps out of what the threads are in the middle of run out: a destroy
-- waits for a bounded number of them.
use bit_magic_zi_modem.Base.{ℕ, suc, ◌≤◌, ◌≡◌, refl, true, Option, none, some, arith}
use bit_magic_zi_modem.Host.Process.{Worker, idle, setting_up, testing, looping, ended, Instance}
use bit_magic_zi_modem.Host.Threads.{
  Pc, resting, owes, holds, waits, joins, faulted, System, Step, creates, sets_callbacks, starts,
  feeds, takes, sets_pin, acts, turns, throws, calls, dangles, returns, nests_pin, nests_callbacks,
  stops, releases, Reach,
}
use bit_magic_zi_modem.Host.Threads.Wired.{live_active}
use bit_magic_zi_modem.Host.Threads.Invariant.{start_state}
use bit_magic_zi_modem.Host.Threads.Progress.{
  is_inner, Finishes, done, goes, IsSafe, Step-IsSafe, Reach-IsSafe,
}
use bit_magic_zi_modem.Host.Threads.Nearer.{
  places, rounds, rounds_at, left_for, IsNearer, nearer, over, Step-IsNearer,
}

-- The number of steps of such a sequence.
unfoldable pub steps : {s t : System} → Finishes s t → ℕ
steps done = 0
steps (goes x e rest) = suc (steps rest)

-- Where all threads rest and no instance is active, there is nothing to come back from.
over_rests :
    (s t : System) (x : Step true s t)
    → is_inner x ≡ true
    → IsSafe s
    → ((j : ℕ) → s.pc j ≡ resting)
    → s.process.active ≡ none
    → ⊥
over_rests s t (creates dir m e) y g h a = cc (y)
over_rests s t (sets_callbacks k m inst c z r e f may) y g h a = cc (y)
over_rests s t (starts k m inst z r e f may) y g h a = cc (y)
over_rests s t (feeds bytes) y g h a = cc (y)
over_rests s t takes y g h a = cc (y)
over_rests s t (sets_pin k pin value z r may) y g h a = cc (y)
over_rests s t (acts m inst b r e c) y g h a = cc (y)
over_rests s t (turns m inst r e w) y g h a = cc (live_active s.process m inst g.inv.wired e, a)
over_rests s t (throws m inst message r e c) y g h a = cc (y)
over_rests s t (calls k d inst o e f) y g h a = cc (o, h k)
over_rests s t (dangles k d o e) y g h a = cc (y)
over_rests s t (returns k m inst o e) y g h a = cc (o, h k)
over_rests s t (nests_pin k m pin value p q c) y g h a = cc (c)
over_rests s t (nests_callbacks k m p c) y g h a = cc (c)
over_rests s t (stops k m inst z r b e may) y g h a = cc (y)
over_rests s t (releases k m inst e z f j) y g h a = cc (e, h k)

over_done :
    (s u : System) (w : Finishes s u)
    → IsSafe s
    → ((j : ℕ) → s.pc j ≡ resting)
    → s.process.active ≡ none
    → steps w ≡ 0
unfolding steps
over_done s u done g h a = refl
over_done s u (goes {t = t} x e w) g h a = absurd (over_rests s t x e g h a)

step_bound :
    (s t u : System) (i id : ℕ) (w : Finishes t u)
    → IsSafe t
    → IsNearer s t i id
    → (t.pc i ≡ joins id → steps w ≤ left_for t id)
    → suc (steps w) ≤ left_for s id
step_bound s t u i id w g (nearer r l) b = let c = b r in omega (arith, c, l)
step_bound s t u i id w g (over h a) b = let c = over_done t u w g h a in omega (arith, c)

Finishes-bound :
    (s u : System) (i id : ℕ) (w : Finishes s u)
    → IsSafe s
    → s.pc i ≡ joins id
    → steps w ≤ left_for s id
unfolding steps
Finishes-bound s u i id done g q = omega arith
Finishes-bound s u i id (goes {t = t} x e w) g q =
    step_bound s t u i id w (Step-IsSafe s t x g) (Step-IsNearer s t i id x e g q)
      (λ r. Finishes-bound t u i id w (Step-IsSafe s t x g) r)

places_most : (s : System) (i : ℕ) → places (s.pc i) ≤ 2
places_most s i = go (s.pc i)
  where
    go : (x : Pc) → places x ≤ 2
    go resting = omega arith
    go (owes d) = omega arith
    go (holds m) = omega arith
    go (joins m) = omega arith
    go (waits m) = omega arith
    go faulted = omega arith

rounds_most : (o : Option Instance) → rounds_at o ≤ 2
rounds_most none = omega arith
rounds_most (some inst) = go inst.worker
  where
    go : (w : Worker) → rounds w ≤ 2
    go idle = omega arith
    go setting_up = omega arith
    go testing = omega arith
    go looping = omega arith
    go ended = omega arith

-- With a careful host, from every reachable state where a thread joins in destroy, there are at
-- most five steps out of what the threads are in the middle of, in whatever order they come: a
-- destroy waits for no more than them, as long as setup() or loop() comes back.
-- A careful host calls set_callbacks, start and set_pin only while no destroy runs, and destroy
-- only while its other threads are out of the library; inside of a callback that runs under
-- callback_mutex it makes no call of set_pin or set_callbacks, and inside of any callback none of
-- start, create or destroy.
pub Reach-bound :
    (s u : System) (i id : ℕ)
    → Reach true start_state s
    → s.pc i ≡ joins id
    → (w : Finishes s u) → steps w ≤ 5
Reach-bound s u i id r q w =
    let b = Finishes-bound s u i id w (Reach-IsSafe s r) q in
    let p = places_most s 0 in
    let o = rounds_most (s.process.instances id) in omega (arith, b, p, o)
