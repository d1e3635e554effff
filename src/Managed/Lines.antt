-- ===== src/Managed/Lines.antt =====
-- The control lines of the managed wrapper: SignalChanged against ZimodemPinState.
use bit_magic_zi_modem.Base.{ℕ, ◌≡◌, refl, true, false, not, some, [], ◌∷◌}
use bit_magic_zi_modem.Base.Int.{ℤ, pos, ◌==ℤ◌}
use bit_magic_zi_modem.Pins.{differs, find, digital_write}
use bit_magic_zi_modem.Host.Process.{
  Instance, writes_pin, firmware_step, deliver_signals, on_pin_signal,
}
use bit_magic_zi_modem.Host.Lifetime.{Fine, fine}
use bit_magic_zi_modem.Managed.{signal_changed, Managed, Answer, acts, use_once, react_all, react}

-- ZimodemPinState, which is active-low.
abbrev pub pin_active : ℤ
pin_active = pos 0

abbrev pub pin_inactive : ℤ
pin_inactive = pos 1

-- Where the firmware changes a line while on_signal of the active instance is set and no callback
-- runs, SignalChanged is raised once, with the number of the pin; its Active is false where the new
-- value is ZimodemPinState.Active, and true for any other value, Inactive among them.
pub writes_pin-SignalChanged :
    (m : Managed) (id h : ℕ) (inst : Instance) (pin value : ℤ)
    → m.process.pins.callback ≡ some id
    → m.process.instances id ≡ some inst
    → inst.locked ≡ false
    → inst.on_signal ≡ some h
    → differs (find m.process.pins.value pin) value ≡ true
    → Fine {A = Answer}
        (λ a.
          (a.events ≡ signal_changed pin (not (value ==ℤ pin_active)) ∷ [])
          × ((value ≡ pin_active) → a.events ≡ signal_changed pin false ∷ [])
          × ((value ≡ pin_inactive) → a.events ≡ signal_changed pin true ∷ []))
        (use_once m (acts (writes_pin pin value)))
unfolding use_once firmware_step digital_write deliver_signals on_pin_signal react_all react
writes_pin-SignalChanged m id h inst pin value c i l o d =
    rw (c, d, i, l, o) (fine _ (refl, (λ e. rw e refl), (λ e. rw e refl)))
