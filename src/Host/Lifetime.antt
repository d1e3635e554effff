-- ===== src/Host/Lifetime.antt =====
-- One instance at a time, and no callback into a freed one, over any history of calls.
use bit_magic_zi_modem.Base.{
  ℕ, ◌+◌, ◌≡◌, refl, sym, subst, ap, ◌∙◌, Bool, true, false, Option, none, some, List, arith, ◌==◌,
  ==_iff, inl, inr, Bool-cases,
}
use bit_magic_zi_modem.SerialPort.{Serial, set_data_ready_callback, set_line_config_callback}
use bit_magic_zi_modem.Pins.{Pins, set_signal_callback}
use bit_magic_zi_modem.Host.Process.{Instance, Process, Result, ok}
use bit_magic_zi_modem.Host.Abi.{is_live, usable_dir, register, create, create_in, create_at, put}

abbrev pub names : Option ℕ → ℕ → Bool
names none j = false
names (some id) j = j == id

abbrev pub IsFree : Option Instance → Type 0
IsFree none = Unit
IsFree (some inst) = inst.locked ≡ false

-- Every closure that the HAL holds is of the active instance, which is the only live one, and its
-- mutex is free between the steps.
pub record IsValid (p : Process) : Type 0 where
  pub ready : p.serial.data_ready_callback ≡ p.active
  pub line : p.serial.line_config_callback ≡ p.active
  pub pin : p.pins.callback ≡ p.active
  pub sink : p.log_sink ≡ p.active
  pub live : (j : ℕ) → is_live (p.instances j) ≡ names p.active j
  pub free : (j : ℕ) → IsFree (p.instances j)

-- A step that goes through, with a result of which `Q` holds.
pub data Fine {ℓ κ} {A : Type ℓ} (Q : A → Type κ) : Result A → Type (ℓ ⊔ κ) where
  fine : (a : A) → Q a → Fine Q (ok a)

-- Registering a new instance with no other alive.
pub register-IsValid :
    (p : Process) (id : ℕ) → IsValid p → p.active ≡ none → IsValid (register p id)
unfolding set_data_ready_callback set_line_config_callback set_signal_callback
register-IsValid p id v e = record {
  ready = refl;
  line = refl;
  pin = refl;
  sink = refl;
  live = λ j. ground (arith, v.live j, e);
  free = λ j. elim (Bool-cases (j == id)) [ inl q ↦ rw q refl | inr q ↦ rw q (v.free j) ];
}

pub move-IsValid :
    (p : Process) (dir : List ℕ) (n : ℕ)
    → IsValid p
    → IsValid (record p { root = dir; net_uses = n })
move-IsValid p dir n v = record {
  ready = v.ready;
  line = v.line;
  pin = v.pin;
  sink = v.sink;
  live = v.live;
  free = v.free;
}

-- create keeps the process valid, in each of its outcomes.
pub create-IsValid :
    (p : Process) (cfg : Option (Option (List ℕ))) (made : Bool) (memory : Option ℕ)
    → IsValid p
    → IsValid (create p cfg made memory).1
unfolding create
create-IsValid p cfg made memory v = go (usable_dir cfg)
  where
    at :
        (o : Option ℕ)
        → p.active ≡ o
        → (dir : List ℕ) (made : Bool) (memory : Option ℕ)
        → IsValid (create_at p o dir made memory).1
    at (some id) e dir made memory = v
    at none e dir false memory = move-IsValid p dir p.net_uses v
    at none e dir true none = move-IsValid p dir (p.net_uses + 1) v
    at none e dir true (some id) = register-IsValid _ id (move-IsValid p dir (p.net_uses + 1) v) e

    go : (d : Option (List ℕ)) → IsValid (create_in p d made memory).1
    go none = v
    go (some dir) = at p.active refl dir made memory

-- Replacing a live instance by one whose mutex is free.
pub put-IsValid :
    (p : Process) (id : ℕ) (old inst : Instance)
    → IsValid p
    → p.instances id ≡ some old
    → inst.locked ≡ false
    → IsValid (put p id inst)
put-IsValid p id old inst v e f = record {
  ready = v.ready;
  line = v.line;
  pin = v.pin;
  sink = v.sink;
  live = λ j. elim (Bool-cases (j == id)) [
    | inl q ↦ rw q (
        sym (ap is_live e) ∙ ap (λ k. is_live (p.instances k)) (sym ((==_iff j id).0 q)) ∙ v.live j)
    | inr q ↦ rw q (v.live j)
  ];
  free = λ j. elim (Bool-cases (j == id)) [ inl q ↦ rw q f | inr q ↦ rw q (v.free j) ];
}

-- The active instance is alive, and its mutex is free.
pub active_instance :
    (p : Process) (id : ℕ)
    → IsValid p
    → p.active ≡ some id
    → (inst : Instance) × (p.instances id ≡ some inst) × (inst.locked ≡ false)
active_instance p id v e = go (p.instances id) refl
  where
    go :
        (o : Option Instance)
        → p.instances id ≡ o
        → (inst : Instance) × (p.instances id ≡ some inst) × (inst.locked ≡ false)
    go none q =
        absurd
          (no (sym (ap is_live q) ∙ v.live id ∙ ap (λ o. names o id) e ∙ (==_iff id id).1 refl))
      where
        no : false ≡ true → ⊥
        no h = cc
    go (some inst) q = (inst, q, subst IsFree q (v.free id))

-- A port and a pin table with the same callbacks in place of the old ones.
pub serial-IsValid :
    (p : Process) (s : Serial ℕ)
    → s.data_ready_callback ≡ p.serial.data_ready_callback
    → s.line_config_callback ≡ p.serial.line_config_callback
    → IsValid p
    → IsValid (record p { serial = s })
serial-IsValid p s a b v = record {
  ready = a ∙ v.ready;
  line = b ∙ v.line;
  pin = v.pin;
  sink = v.sink;
  live = v.live;
  free = v.free;
}

pub pins-IsValid :
    (p : Process) (t : Pins ℕ)
    → t.callback ≡ p.pins.callback
    → IsValid p
    → IsValid (record p { pins = t })
pins-IsValid p t a v = record {
  ready = v.ready;
  line = v.line;
  pin = a ∙ v.pin;
  sink = v.sink;
  live = v.live;
  free = v.free;
}

-- The process is valid and its active instance is the one named.
abbrev pub Kept : Option ℕ → Process → Type 0
Kept o p = IsValid p × (p.active ≡ o)
