-- ===== src/Host/Threads/Wired.antt =====
-- The closures that the HAL holds and the live instances, whoever holds callback_mutex.
use bit_magic_zi_modem.Base.{
  ℕ, ◌≡◌, refl, sym, ap, ◌∙◌, inl, inr, Bool, true, false, Option, none, some, ◌==◌, ==_iff, arith,
  Bool-cases,
}
use bit_magic_zi_modem.SerialPort.{set_data_ready_callback, set_line_config_callback}
use bit_magic_zi_modem.Pins.{set_signal_callback}
use bit_magic_zi_modem.Host.Process.{Instance, Process}
use bit_magic_zi_modem.Host.Abi.{is_live, register, put, release, clear}
use bit_magic_zi_modem.Host.Lifetime.{names}

pub record IsWired (p : Process) : Type 0 where
  pub ready : p.serial.data_ready_callback ≡ p.active
  pub line : p.serial.line_config_callback ≡ p.active
  pub pin : p.pins.callback ≡ p.active
  pub sink : p.log_sink ≡ p.active
  pub live : (j : ℕ) → is_live (p.instances j) ≡ names p.active j

-- callback_mutex of the active instance is locked.
abbrev locked_at : Option Instance → Bool
locked_at none = false
locked_at (some inst) = inst.locked

abbrev lock_in : Option ℕ → (ℕ → Option Instance) → Bool
lock_in none heap = false
lock_in (some id) heap = locked_at (heap id)

abbrev pub lock_of : Process → Bool
lock_of p = lock_in p.active p.instances

-- A live instance is the active one.
pub live_active :
    (p : Process) (id : ℕ) (inst : Instance)
    → IsWired p
    → p.instances id ≡ some inst
    → p.active ≡ some id
live_active p id inst w e = go p.active (sym (w.live id) ∙ ap is_live e)
  where
    go : (a : Option ℕ) → names a id ≡ true → a ≡ some id
    go none h = cc (h)
    go (some k) h = ap some (sym ((==_iff id k).0 h))

-- The active instance is alive.
pub active_live :
    (p : Process) (id : ℕ)
    → IsWired p
    → p.active ≡ some id
    → (inst : Instance) × (p.instances id ≡ some inst)
active_live p id w e = go (p.instances id) refl
  where
    go :
        (o : Option Instance)
        → p.instances id ≡ o
        → (inst : Instance) × (p.instances id ≡ some inst)
    go none q = cc (sym (ap is_live q) ∙ w.live id ∙ ap (λ o. names o id) e ∙ (==_iff id id).1 refl)
    go (some inst) q = (inst, q)

pub lock_of_live :
    (p : Process) (id : ℕ) (inst : Instance)
    → p.active ≡ some id
    → p.instances id ≡ some inst
    → lock_of p ≡ inst.locked
lock_of_live p id inst a e = rw (a, e) refl

-- Replacing a live instance.
pub put-IsWired :
    (p : Process) (id : ℕ) (old inst : Instance)
    → IsWired p
    → p.instances id ≡ some old
    → IsWired (put p id inst)
put-IsWired p id old inst w e = record {
  ready = w.ready;
  line = w.line;
  pin = w.pin;
  sink = w.sink;
  live = λ j. elim (Bool-cases (j == id)) [
    | inl q ↦ rw q (
        sym (ap is_live e) ∙ ap (λ k. is_live (p.instances k)) (sym ((==_iff j id).0 q)) ∙ w.live j)
    | inr q ↦ rw q (w.live j)
  ];
}

pub lock_of-put :
    (p : Process) (id : ℕ) (inst : Instance)
    → p.active ≡ some id
    → lock_of (put p id inst) ≡ inst.locked
lock_of-put p id inst a = rw (a, (==_iff id id).1 refl) refl

pub register-IsWired :
    (p : Process) (id : ℕ) → IsWired p → p.active ≡ none → IsWired (register p id)
unfolding set_data_ready_callback set_line_config_callback set_signal_callback
register-IsWired p id w e = record {
  ready = refl;
  line = refl;
  pin = refl;
  sink = refl;
  live = λ j. ground (arith, w.live j, e);
}

pub release-IsWired :
    (p : Process) (id : ℕ) → IsWired p → p.active ≡ some id → IsWired (release p id)
unfolding release set_data_ready_callback set_line_config_callback set_signal_callback
release-IsWired p id w e = record {
  ready = sym cleared;
  line = sym cleared;
  pin = sym cleared;
  sink = sym cleared;
  live = λ j. elim (Bool-cases (j == id)) [
    | inl q ↦ rw (q, cleared) refl
    | inr q ↦ rw (q, cleared) (w.live j ∙ ap (λ a. names a j) e ∙ q)
  ];
}
  where
    cleared : clear p.active id ≡ none
    cleared = rw (e, (==_iff id id).1 refl) refl

pub release_active : (p : Process) (id : ℕ) → p.active ≡ some id → (release p id).active ≡ none
unfolding release
release_active p id e = rw (e, (==_iff id id).1 refl) refl
