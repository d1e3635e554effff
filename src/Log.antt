-- ===== src/Log.antt =====
-- log.cpp: the sink of the debug channel. A sink is a value of type `C`; a call returns the
-- messages that it hands to the sink. `none` of a format is an error of vsnprintf, and otherwise
-- the text that it makes.
use bit_magic_zi_modem.Base.{ℕ, Option, none, some, List, [], ◌∷◌}

pub data Message (C : Type 0) : Type 0 where
  logged : C → List ℕ → Message C

module _ {C : Type 0} where
  unfoldable pub set_sink : Option C → Option C → Option C
  set_sink old sink = sink

  -- The sink is copied under the lock and called behind it.
  unfoldable pub write : Option C → List ℕ → List (Message C)
  write none message = []
  write (some sink) message = logged sink message ∷ []

  -- vwritef, and with it writef and zimodem_hal_debug_printf, which make its va_list.
  unfoldable pub vwritef : Option C → Option (List ℕ) → List (Message C)
  unfolding write
  vwritef g none = []
  vwritef g (some text) = write g text
