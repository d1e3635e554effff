-- ===== src/Host/Threads/Nearer.antt =====
-- While a thread joins, each step out of what a thread is in the middle of brings the destroy nearer
-- to its end.
use bit_magic_zi_modem.Base.{
  ℕ, ◌+◌, ◌≤◌, ◌<◌, ◌≡◌, refl, sym, ap, ◌∙◌, true, false, Option, none, some, arith,
}
use bit_magic_zi_modem.Host.Process.{Worker, idle, setting_up, testing, looping, ended, Instance}
use bit_magic_zi_modem.Host.Abi.{put, is_joined}
use bit_magic_zi_modem.Host.Threads.{
  Delivery, readies, signals, lines, says, target, Pc, resting, owes, holds, waits, joins, faulted,
  System, turned, update, move, entered, Step, creates, sets_callbacks, starts, feeds, takes,
  sets_pin, acts, turns, throws, calls, dangles, returns, nests_pin, nests_callbacks, stops,
  releases,
}
use bit_magic_zi_modem.Host.Threads.Calm.{update_self, update_other}
use bit_magic_zi_modem.Host.Threads.Crossing.{released_rest}
use bit_magic_zi_modem.Host.Threads.Wired.{live_active, release_active}
use bit_magic_zi_modem.Host.Threads.Invariant.{joined_zero}
use bit_magic_zi_modem.Host.Threads.Stopping.{put_self}
use bit_magic_zi_modem.Host.Threads.Progress.{is_inner, IsSafe}

-- The steps that a thread at this place still makes, and those of the background thread's loop once
-- `running` is false.
abbrev pub places : Pc → ℕ
places resting = 0
places (owes d) = 2
places (holds id) = 1
places (joins id) = 1
places (waits id) = 0
places faulted = 0

abbrev pub rounds : Worker → ℕ
rounds idle = 0
rounds setting_up = 2
rounds testing = 1
rounds looping = 2
rounds ended = 0

abbrev pub rounds_at : Option Instance → ℕ
rounds_at none = 0
rounds_at (some inst) = rounds inst.worker

-- What is still to come for a destroy of `id`: the background thread's call, its loop, and the end
-- of the join.
abbrev pub left_for : System → ℕ → ℕ
left_for s id = places (s.pc 0) + rounds_at (s.process.instances id) + 1

-- Behind an inner step the thread joins with less to come, or all is over.
pub data IsNearer (s t : System) (i id : ℕ) : Type 0 where
  nearer : t.pc i ≡ joins id → left_for t id < left_for s id → IsNearer s t i id
  over : ((j : ℕ) → t.pc j ≡ resting) → t.process.active ≡ none → IsNearer s t i id

rounds-turned :
    (w : Worker) (inst : Instance)
    → is_joined w ≡ false
    → inst.running ≡ false
    → rounds (turned w inst).worker < rounds w
rounds-turned idle inst j r = cc (j)
rounds-turned setting_up inst j r = omega arith
rounds-turned testing inst j r = rw r (omega arith)
rounds-turned looping inst j r = omega arith
rounds-turned ended inst j r = cc (j)

less :
    (s t : System) (i id a b c d : ℕ)
    → t.pc i ≡ joins id
    → places (t.pc 0) ≡ a
    → rounds_at (t.process.instances id) ≡ b
    → places (s.pc 0) ≡ c
    → rounds_at (s.process.instances id) ≡ d
    → a + b < c + d
    → IsNearer s t i id
less s t i id a b c d q e f g h l = nearer q (omega (arith, e, f, g, h, l))

-- The background thread moves to another place, and its instance keeps where its loop stands.
moved-IsNearer :
    (s : System) (i id k m : ℕ) (old inst : Instance) (x : Pc)
    → IsSafe s
    → s.pc i ≡ joins id
    → k ≡ 0
    → s.process.instances m ≡ some old
    → inst.worker ≡ old.worker
    → places x < places (s.pc k)
    → IsNearer s (move s k x (put s.process m inst)) i id
moved-IsNearer s i id k m old inst x g q z e w l =
    let a = g.inv.calm.joining i id q in
    let p : m ≡ id = cc (live_active s.process m old g.inv.wired e, a.0) in
    less s (move s k x (put s.process m inst)) i id (places x) (rounds old.worker) (places (s.pc k))
      (rounds old.worker) (update_other s.pc k x i (λ o. omega (arith, a.1, o, z)) ∙ q)
      (ap (λ j. places (update s.pc k x j)) (sym z) ∙ ap places (update_self s.pc k x))
      (ap (λ j. rounds_at ((put s.process m inst).instances j)) (sym p)
        ∙ ap rounds_at (put_self s.process m inst)
        ∙ ap rounds w)
      (ap (λ j. places (s.pc j)) (sym z))
      (ap (λ j. rounds_at (s.process.instances j)) (sym p) ∙ ap rounds_at e) (omega (arith, l))

call-IsNearer :
    (s : System) (i id k : ℕ) (d : Delivery) (inst : Instance)
    → IsSafe s
    → s.pc i ≡ joins id
    → s.pc k ≡ owes d
    → s.process.instances (target d) ≡ some inst
    → IsNearer s (entered s k d inst) i id
call-IsNearer s i id k d inst g q o e = go d o e
  where
    z : k ≡ 0
    z = joined_zero _ _ s.pc k i id g.inv.calm (λ r. cc (o, r)) (λ m r. cc (o, r)) q

    a : (s.process.active ≡ some id) × (0 < i)
    a = g.inv.calm.joining i id q

    drop_to : (x : Delivery) (y : Pc) → s.pc k ≡ owes x → places y ≤ 1 → places y < places (s.pc k)
    drop_to x y o l = omega (arith, ap places o, l)

    go :
        (x : Delivery)
        → s.pc k ≡ owes x
        → s.process.instances (target x) ≡ some inst
        → IsNearer s (entered s k x inst) i id
    go (readies m) o e =
        moved-IsNearer s i id k m inst _ (holds m) g q z e refl
          (drop_to (readies m) (holds m) o (omega arith))
    go (signals m pin value) o e =
        moved-IsNearer s i id k m inst _ (holds m) g q z e refl
          (drop_to (signals m pin value) (holds m) o (omega arith))
    go (says m message) o e =
        moved-IsNearer s i id k m inst _ (holds m) g q z e refl
          (drop_to (says m message) (holds m) o (omega arith))
    go (lines m baud config) o e =
        less s (move s k resting s.process) i id 0 (rounds_at (s.process.instances id)) 2
          (rounds_at (s.process.instances id))
          (update_other s.pc k resting i (λ p. omega (arith, a.1, p, z)) ∙ q)
          (ap (λ j. places (update s.pc k resting j)) (sym z)
            ∙ ap places (update_self s.pc k resting))
          refl (ap (λ j. places (s.pc j)) (sym z) ∙ ap places o) refl (omega arith)

pub Step-IsNearer :
    (s t : System) (i id : ℕ) (x : Step true s t)
    → is_inner x ≡ true
    → IsSafe s
    → s.pc i ≡ joins id
    → IsNearer s t i id
Step-IsNearer s t i id (creates dir m e) y g q = cc (y)
Step-IsNearer s t i id (sets_callbacks k m inst c z r e f may) y g q = cc (y)
Step-IsNearer s t i id (starts k m inst z r e f may) y g q = cc (y)
Step-IsNearer s t i id (feeds bytes) y g q = cc (y)
Step-IsNearer s t i id takes y g q = cc (y)
Step-IsNearer s t i id (sets_pin k pin value z r may) y g q = cc (y)
Step-IsNearer s t i id (acts m inst a r e c) y g q = cc (y)
Step-IsNearer s t i id (turns m inst r e w) y g q =
    let a = g.inv.calm.joining i id q in
    let p : m ≡ id = cc (live_active s.process m inst g.inv.wired e, a.0) in
    let f = ap s.process.instances (sym p) ∙ e in
    less s _ i id (places (s.pc 0)) (rounds (turned inst.worker inst).worker) (places (s.pc 0))
      (rounds inst.worker) q refl
      (ap (λ j. rounds_at ((put s.process m (turned inst.worker inst)).instances j)) (sym p)
        ∙ ap rounds_at (put_self s.process m (turned inst.worker inst)))
      refl (ap rounds_at f)
      (omega (arith, rounds-turned inst.worker inst w (g.stopping.stop i id inst q f)))
Step-IsNearer s t i id (throws m inst message r e c) y g q = cc (y)
Step-IsNearer s t i id (calls k d inst o e f) y g q = call-IsNearer s i id k d inst g q o e
Step-IsNearer s t i id (dangles k d o e) y g q = cc (y)
Step-IsNearer s t i id (returns k m inst h e) y g q =
    let z = joined_zero _ _ s.pc k i id g.inv.calm (λ r. cc (h, r)) (λ n r. cc (h, r)) q in
    moved-IsNearer s i id k m inst _ resting g q z e refl (omega (arith, ap places h))
Step-IsNearer s t i id (nests_pin k m pin value h p c) y g q = cc (c)
Step-IsNearer s t i id (nests_callbacks k m h c) y g q = cc (c)
Step-IsNearer s t i id (stops k m inst z r a e may) y g q = cc (y)
Step-IsNearer s t i id (releases k m inst e z f j) y g q =
    over (released_rest _ _ s.pc g.inv.calm k m e z)
      (release_active s.process m (g.inv.calm.joining k m e).0)
