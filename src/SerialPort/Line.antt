-- ===== src/SerialPort/Line.antt =====
-- The recorded line settings of serial_port.cpp, and what a listener learns of them.
use bit_magic_zi_modem.Base.{
  ℕ, ◌≡◌, refl, ◌≢◌, ◌&&◌, some, List, [], ◌∷◌, ◌++◌, arith, ◌==◌, inl, inr, Bool-cases,
}
use bit_magic_zi_modem.SerialPort.{
  Serial, Event, line_changed, set_line_config, set_line_baud, get_line_config,
}

-- The calls of HardwareSerialCompat::begin, with and without a framing.
pub data Begin : Type 0 where
  baud_only : ℕ → Begin
  baud_config : ℕ → ℕ → Begin

module _ {C : Type 0} where
  unfoldable pub begin : Serial C → Begin → List (Event C) × Serial C
  unfolding set_line_baud set_line_config
  begin s (baud_only baud) = set_line_baud s baud
  begin s (baud_config baud config) = set_line_config s baud config

  unfoldable pub begins : Serial C → List Begin → List (Event C) × Serial C
  unfolding begin
  begins s [] = ([], s)
  begins s (b ∷ bs) = let (es, s') = begin s b in let (fs, s'') = begins s' bs in (es ++ fs, s'')

  -- The events lead from one pair of settings to another, and each of them is a change.
  pub data Changes (cb : C) : ℕ × ℕ → List (Event C) → ℕ × ℕ → Type 0 where
    done : {v : ℕ × ℕ} → Changes cb v [] v
    change :
        {v w : ℕ × ℕ} {es : List (Event C)} (baud config : ℕ)
        → v ≢ (baud, config)
        → Changes cb (baud, config) es w
        → Changes cb v (line_changed cb baud config ∷ es) w

  Changes-append :
      {cb : C} {u v w : ℕ × ℕ} {es fs : List (Event C)}
      → Changes cb u es v
      → Changes cb v fs w
      → Changes cb u (es ++ fs) w
  Changes-append done k = k
  Changes-append (change baud config n h) k = change baud config n (Changes-append h k)

  begin-Changes :
      (s : Serial C) (cb : C) (b : Begin)
      → s.line_config_callback ≡ some cb
      → Changes cb (get_line_config s) (begin s b).0 (get_line_config (begin s b).1)
        × ((begin s b).1.line_config_callback ≡ some cb)
  unfolding begin get_line_config
  begin-Changes s cb (baud_only baud) e = elim (Bool-cases (s.line_baud == baud)) [
    | inl t ↦ rw t (done, e)
    | inr f ↦ rw (f, e) (change baud s.line_config (λ p. ground arith) done, refl)
  ]
  begin-Changes s cb (baud_config baud config) e =
      elim (Bool-cases (s.line_baud == baud && s.line_config == config)) [
        | inl t ↦ rw t (done, e)
        | inr f ↦ rw (f, e) (change baud config (λ p. ground arith) done, refl)
      ]

  -- Over any sequence of begin() calls a listener is told each change of the line settings once,
  -- in order, with both settings as they then are, and nothing where a call repeats the current
  -- ones; so the last event has what get_line_config answers.
  pub begins-Changes :
      (s : Serial C) (cb : C) (bs : List Begin)
      → s.line_config_callback ≡ some cb
      → Changes cb (get_line_config s) (begins s bs).0 (get_line_config (begins s bs).1)
  unfolding begins
  begins-Changes s cb [] e = done
  begins-Changes s cb (b ∷ bs) e =
      let h = begin-Changes s cb b e in Changes-append h.0 (begins-Changes (begin s b).1 cb bs h.1)
