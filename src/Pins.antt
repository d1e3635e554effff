-- ===== src/Pins.antt =====
-- pins.cpp: the table of virtual pins, guarded by a mutex, so that a call is one step.
-- An unordered_map<int, int> is an association list with one entry for each key. A callback is a
-- value of type `C`, an argument of the model; a call returns the callbacks that it invokes.
pub mod Signals
mod Tests
use bit_magic_zi_modem.Base.{
  ℕ, Bool, true, false, not, Option, none, some, List, [], ◌∷◌, if◌then◌else◌,
}
use bit_magic_zi_modem.Base.Int.{ℤ, pos, ◌==ℤ◌}

abbrev pub Table : Type 0
Table = List (ℤ × ℤ)

-- `map.find(key)`
unfoldable pub find : Table → ℤ → Option ℤ
find [] key = none
find ((k, v) ∷ t) key = if k ==ℤ key then some v else find t key

-- `map[key] = value`
unfoldable pub assign : Table → ℤ → ℤ → Table
assign [] key value = (key, value) ∷ []
assign ((k, v) ∷ t) key value = if k ==ℤ key then (k, value) ∷ t else (k, v) ∷ assign t key value

pub record Pins (C : Type 0) : Type 0 where
  pub mode : Table
  pub value : Table
  pub callback : Option C

-- An invocation of the signal callback, with the pin and its new value.
pub data Signal (C : Type 0) : Type 0 where
  signal : C → ℤ → ℤ → Signal C

-- `(it == end) || (it->second != value)`
abbrev pub differs : Option ℤ → ℤ → Bool
differs none value = true
differs (some old) value = not (old ==ℤ value)

-- `it == g_value.end() ? 0 : it->second`
abbrev pub or_low : Option ℤ → ℤ
or_low none = pos 0
or_low (some v) = v

module _ {C : Type 0} where
  abbrev pub initial : Pins C
  initial = record { mode = []; value = []; callback = none }

  unfoldable pub pin_mode : Pins C → ℤ → ℤ → Pins C
  unfolding assign
  pin_mode p pin mode = record p { mode = assign p.mode pin mode }

  abbrev pub notify : Option C → Bool → ℤ → ℤ → List (Signal C)
  notify none changed pin value = []
  notify (some cb) changed pin value = if changed then signal cb pin value ∷ [] else []

  -- The callback is copied under the lock and invoked behind it, if the value changed.
  unfoldable pub digital_write : Pins C → ℤ → ℤ → List (Signal C) × Pins C
  digital_write p pin value = (
    notify p.callback (differs (find p.value pin) value) pin value,
    record p { value = assign p.value pin value },
  )

  unfoldable pub digital_read : Pins C → ℤ → ℤ
  digital_read p pin = or_low (find p.value pin)

  unfoldable pub set_signal_callback : Pins C → Option C → Pins C
  set_signal_callback p cb = record p { callback = cb }

  unfoldable pub reset_for_testing : Pins C → Pins C
  reset_for_testing p = record p { mode = []; value = []; callback = none }
