-- ===== src/Timing.antt =====
-- timing.cpp: the clock, and what tests may put in its place. `W` is the world that a clock reads
-- and a sleep moves on; the clock and the sleep of the operating system are arguments.
use bit_magic_zi_modem.Base.{ℕ, Option, none, some}

pub record Timing (W : Type 0) : Type 0 where
  pub now_override : Option (W → ℕ × W)
  pub sleep_override : Option (ℕ → W → W)

abbrev pub or_real {ℓ} : {A : Type ℓ} → Option A → A → A
or_real none real = real
or_real (some fake) real = fake

module _ {W : Type 0} where
  abbrev pub real_clock : Timing W
  real_clock = record { now_override = none; sleep_override = none }

  unfoldable pub now_ms : Timing W → (W → ℕ × W) → W → ℕ × W
  now_ms t real_now_ms w = or_real t.now_override real_now_ms w

  unfoldable pub sleep_ms : Timing W → (ℕ → W → W) → ℕ → W → W
  sleep_ms t real_sleep_ms ms w = or_real t.sleep_override real_sleep_ms ms w

  unfoldable pub set_clock_for_testing :
      Timing W → Option (W → ℕ × W) → Option (ℕ → W → W) → Timing W
  set_clock_for_testing t now sleep = record { now_override = now; sleep_override = sleep }
