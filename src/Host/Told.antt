-- ===== src/Host/Told.antt =====
-- What the line callback is told, against what get_line_config answers.
use bit_magic_zi_modem.Base.{
  ℕ, ◌≡◌, refl, false, ◌&&◌, some, List, [], ◌∷◌, ◌⊎◌, inl, inr, ◌==◌, Bool-cases,
}
use bit_magic_zi_modem.SerialPort.{get_line_config}
use bit_magic_zi_modem.SerialPort.Line.{Begin, begin, baud_only, baud_config}
use bit_magic_zi_modem.Host.Process.{
  Instance, Process, Out, line_config_out, deliver_events, deliver_event, on_line_changed,
  firmware_step, begins,
}
use bit_magic_zi_modem.Host.Abi.{LineAnswer, host_get_line_config}
use bit_magic_zi_modem.Host.Lifetime.{Fine, fine}

-- The call of the line callback with the parts of such an answer.
abbrev pub announcement : ℕ → ℕ → LineAnswer → Out
announcement cb ctx a =
    line_config_out cb ctx a.baud a.framing.data_bits a.framing.parity a.framing.stop_bits_x10

-- Where the host has set a line callback, a begin() of the firmware goes through, and either it is
-- silent and get_line_config answers as before, or the callback is called once, and with exactly
-- what get_line_config then answers.
pub begin-host_get_line_config :
    (p : Process) (id cb : ℕ) (inst : Instance) (b : Begin)
    → p.serial.line_config_callback ≡ some id
    → p.instances id ≡ some inst
    → inst.locked ≡ false
    → inst.on_line_config ≡ some cb
    → Fine {A = List Out × Process}
        (λ r.
          ((r.0 ≡ []) × (host_get_line_config r.1 (some id) ≡ host_get_line_config p (some id)))
          ⊎ (r.0 ≡ announcement cb inst.user_context (host_get_line_config r.1 (some id)) ∷ []))
        (firmware_step p (begins b))
unfolding firmware_step begin deliver_events deliver_event on_line_changed host_get_line_config
    get_line_config
begin-host_get_line_config p id cb inst (baud_only baud) c i l o =
    elim (Bool-cases (p.serial.line_baud == baud)) [
      | inl e ↦ rw e (fine _ (inl (refl, refl)))
      | inr e ↦ rw (e, c, i, l, o) (fine _ (inr refl))
    ]
begin-host_get_line_config p id cb inst (baud_config baud config) c i l o =
    elim (Bool-cases (p.serial.line_baud == baud && p.serial.line_config == config)) [
      | inl e ↦ rw e (fine _ (inl (refl, refl)))
      | inr e ↦ rw (e, c, i, l, o) (fine _ (inr refl))
    ]
