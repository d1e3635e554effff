-- ===== src/Host/Threads/Endings.antt =====
-- With a careful host no thread waits for ever: the steps that finish what the threads are in the
-- middle of bring each of them back, and bring a destroy to its end.
use bit_magic_zi_modem.Base.{
  ℕ, zero, suc, ◌≡◌, ◌≢◌, ◌<◌, refl, sym, ap, ◌∙◌, inl, inr, true, false, none, some, ◌==◌, ==_iff,
  arith, Bool-cases,
}
use bit_magic_zi_modem.Host.Process.{
  Worker, idle, setting_up, testing, looping, ended, Instance, Process,
}
use bit_magic_zi_modem.Host.Abi.{put, release, is_joined}
use bit_magic_zi_modem.Host.Threads.{
  Delivery, target, Pc, resting, owes, holds, waits, joins, faulted, System, turned, move,
  on_process, turns, releases, Reach,
}
use bit_magic_zi_modem.Host.Threads.Crossing.{released_rest}
use bit_magic_zi_modem.Host.Threads.Wired.{active_live, lock_of_live, release_active}
use bit_magic_zi_modem.Host.Threads.Invariant.{start_state}
use bit_magic_zi_modem.Host.Threads.Stopping.{put_self}
use bit_magic_zi_modem.Host.Threads.Progress.{
  Finishes, done, goes, Finishes-trans, IsSafe, Step-IsSafe, Reach-IsSafe, Leaves, hold-Leaves,
  call-Leaves,
}

-- destroy got to its end: all threads rest, and the instance is gone.
pub record IsEnded (s : System) (id : ℕ) : Type 0 where
  pub rests : (j : ℕ) → s.pc j ≡ resting
  pub free : s.process.active ≡ none
  pub gone : s.process.instances id ≡ none

abbrev Ends : System → ℕ → Type 0
Ends s id = (u : System) × Finishes s u × IsEnded u id

pub released_self : (p : Process) (id : ℕ) → (release p id).instances id ≡ none
unfolding release
released_self p id = rw ((==_iff id id).1 refl) refl

-- Behind the last step of the background thread.
release-Ends :
    (s : System) (i id : ℕ) (inst : Instance)
    → IsSafe s
    → s.pc i ≡ joins id
    → s.pc 0 ≡ resting
    → s.process.instances id ≡ some inst
    → is_joined inst.worker ≡ true
    → Ends s id
release-Ends s i id inst g q z e w = (
  move s i resting (release s.process id),
  goes (releases i id inst q z e w) refl done,
  record {
    rests = released_rest _ _ s.pc g.inv.calm i id q z;
    free = release_active s.process id (g.inv.calm.joining i id q).0;
    gone = released_self s.process id;
  },
)

-- With the background thread out of the HAL: it comes back from its call, finds `running` cleared
-- and ends.
worker-Ends :
    (s : System) (i id : ℕ) (inst : Instance)
    → IsSafe s
    → s.pc i ≡ joins id
    → s.pc 0 ≡ resting
    → s.process.instances id ≡ some inst
    → Ends s id
worker-Ends s i id inst g q z e = go inst.worker refl
  where
    -- One turn of the background thread, and what is left behind it.
    turn :
        (s : System) (inst : Instance)
        → s.pc 0 ≡ resting
        → s.process.instances id ≡ some inst
        → is_joined inst.worker ≡ false
        → Ends (on_process s (put s.process id (turned inst.worker inst))) id
        → Ends s id
    turn s inst z e w r = (r.0, goes (turns id inst z e w) refl r.1, r.2)

    at_test :
        (s : System) (inst : Instance)
        → IsSafe s
        → s.pc i ≡ joins id
        → s.pc 0 ≡ resting
        → s.process.instances id ≡ some inst
        → inst.worker ≡ testing
        → Ends s id
    at_test s inst g q z e w = turn s inst z e (rw w refl) (
        release-Ends _ i id (turned inst.worker inst)
          (Step-IsSafe s _ (turns id inst z e (rw w refl)) g) q z (put_self s.process id _)
          (rw (w, g.stopping.stop i id inst q e) refl))

    in_a_call :
        is_joined inst.worker ≡ false → (turned inst.worker inst).worker ≡ testing → Ends s id
    in_a_call y w = turn s inst z e y (
        at_test _ (turned inst.worker inst) (Step-IsSafe s _ (turns id inst z e y) g) q z
          (put_self s.process id _) w)

    go : (w : Worker) → inst.worker ≡ w → Ends s id
    go idle w = release-Ends s i id inst g q z e (rw w refl)
    go setting_up w = in_a_call (rw w refl) (rw w refl)
    go testing w = at_test s inst g q z e w
    go looping w = in_a_call (rw w refl) (rw w refl)
    go ended w = release-Ends s i id inst g q z e (rw w refl)

-- The mutex is free where no thread is in a callback.
free_lock :
    (s : System) (id : ℕ) (inst : Instance)
    → IsSafe s
    → s.process.active ≡ some id
    → s.process.instances id ≡ some inst
    → ((i m : ℕ) → s.pc i ≢ holds m)
    → inst.locked ≡ false
free_lock s id inst g a e alone = elim (Bool-cases inst.locked) [
  | inl l ↦
      let h = g.inv.calm.holder (lock_of_live s.process id inst a e ∙ l) in
      absurd (alone h.0 h.1 h.2)
  | inr l ↦ l
]

-- While one thread joins and the background thread is outside of a callback, no thread is in one.
no_holder :
    (s : System) (k id : ℕ)
    → IsSafe s
    → s.pc k ≡ joins id
    → ((m : ℕ) → s.pc 0 ≢ holds m)
    → (i m : ℕ) → s.pc i ≢ holds m
no_holder s k id g q n zero m h = n m h
no_holder s k id g q n (suc i) m h = elim (g.inv.calm.alone k id (suc i) q (omega arith)) [
  | inl p ↦ cc (ap s.pc p, q, h)
  | inr r ↦ cc (r, h)
]

join-Ends : (s : System) (i id : ℕ) → IsSafe s → s.pc i ≡ joins id → Ends s id
join-Ends s i id g q = go (s.pc 0) refl
  where
    a : (s.process.active ≡ some id) × (0 < i)
    a = g.inv.calm.joining i id q

    behind : Leaves s 0 → Ends s id
    behind l =
        let q' = l.others i (λ p. omega (arith, p, a.1)) ∙ q in
        let t =
          active_live l.left.process id l.safe.inv.wired (l.safe.inv.calm.joining i id q').0 in
        let r = worker-Ends l.left i id t.0 l.safe q' l.rest t.1 in
        (r.0, Finishes-trans l.way r.1, r.2)

    go : (x : Pc) → s.pc 0 ≡ x → Ends s id
    go resting e =
        let t = active_live s.process id g.inv.wired a.0 in worker-Ends s i id t.0 g q e t.1
    go (holds m) e = behind (hold-Leaves s 0 m g e)
    go (owes d) e =
        let t = active_live s.process (target d) g.inv.wired (g.inv.calm.owed 0 d e) in
        behind (
          call-Leaves s 0 d t.0 g e t.1 (
            free_lock s (target d) t.0 g (g.inv.calm.owed 0 d e) t.1
              (no_holder s i id g q (λ m h. cc (e, h)))))
    go (joins m) e = absurd (omega (arith, (g.inv.calm.joining 0 m e).1))
    go (waits m) e = absurd (g.inv.calm.unstuck 0 m e)
    go faulted e = absurd (g.inv.calm.sound 0 e)

-- A thread that owes a call waits for the one in the callback, if there is one.
owe_rests :
    (s : System) (i : ℕ) (d : Delivery)
    → IsSafe s
    → s.pc i ≡ owes d
    → (u : System) × Finishes s u × (u.pc i ≡ resting)
owe_rests s i d g o =
    let t = active_live s.process (target d) g.inv.wired (g.inv.calm.owed i d o) in
    elim (Bool-cases t.0.locked) [
      | inl l ↦
          let h =
            g.inv.calm.holder
              (lock_of_live s.process (target d) t.0 (g.inv.calm.owed i d o) t.1 ∙ l) in
          waits h.0 h.1 h.2
      | inr l ↦ let r = call-Leaves s i d t.0 g o t.1 l in (r.left, r.way, r.rest)
    ]
  where
    left_alone : (j m : ℕ) → s.pc j ≡ holds m → (l : Leaves s j) → (k n : ℕ) → l.left.pc k ≢ holds n
    left_alone j m h l k n x = elim (Bool-cases (k == j)) [
      | inl b ↦ cc (ap l.left.pc ((==_iff k j).0 b), l.rest, x)
      | inr b ↦
          let p : k ≢ j = λ y. cc (b, (==_iff k j).1 y) in
          p (g.inv.calm.one k j n m (sym (l.others k p) ∙ x) h)
    ]

    waits : (j m : ℕ) → s.pc j ≡ holds m → (u : System) × Finishes s u × (u.pc i ≡ resting)
    waits j m h =
        let l = hold-Leaves s j m g h in
        let q = l.others i (λ p. cc (ap s.pc p, o, h)) ∙ o in
        let a = l.safe.inv.calm.owed i d q in
        let t = active_live l.left.process (target d) l.safe.inv.wired a in
        let r =
          call-Leaves l.left i d t.0 l.safe q t.1
            (free_lock l.left (target d) t.0 l.safe a t.1 (left_alone j m h l)) in
        (r.left, Finishes-trans l.way r.way, r.rest)

-- However the threads of a careful host and the background thread have got in each other's way,
-- each of them can come back: from every reachable state some inner steps lead to one where the
-- thread rests.
-- A careful host calls set_callbacks, start and set_pin only while no destroy runs, and destroy
-- only while its other threads are out of the library; inside of a callback that runs under
-- callback_mutex it makes no call of set_pin or set_callbacks, and inside of any callback none of
-- start, create or destroy.
pub Reach-rests :
    (s : System) (i : ℕ)
    → Reach true start_state s
    → (u : System) × Finishes s u × (u.pc i ≡ resting)
Reach-rests s i r = go (s.pc i) refl
  where
    g : IsSafe s
    g = Reach-IsSafe s r

    go : (x : Pc) → s.pc i ≡ x → (u : System) × Finishes s u × (u.pc i ≡ resting)
    go resting e = (s, done, e)
    go (owes d) e = owe_rests s i d g e
    go (holds id) e = let l = hold-Leaves s i id g e in (l.left, l.way, l.rest)
    go (joins id) e = let l = join-Ends s i id g e in (l.0, l.1, l.2.rests i)
    go (waits m) e = absurd (g.inv.calm.unstuck i m e)
    go faulted e = absurd (g.inv.calm.sound i e)

-- A destroy that a careful host began gets to its end: from every reachable state where a thread
-- joins, some inner steps lead to one where all threads rest, the singleton is free for the next
-- create, and the instance is gone.
-- A careful host calls set_callbacks, start and set_pin only while no destroy runs, and destroy
-- only while its other threads are out of the library; inside of a callback that runs under
-- callback_mutex it makes no call of set_pin or set_callbacks, and inside of any callback none of
-- start, create or destroy.
pub Reach-ends :
    (s : System) (i id : ℕ)
    → Reach true start_state s
    → s.pc i ≡ joins id
    → (u : System) × Finishes s u × IsEnded u id
Reach-ends s i id r q = join-Ends s i id (Reach-IsSafe s r) q
