-- ===== src/Pins/Tests.antt =====
-- pins.cpp on a concrete table, and its theorems there.
use bit_magic_zi_modem.Base.{ℕ, ◌≡◌, refl, some, List, [], ◌∷◌}
use bit_magic_zi_modem.Base.Int.{ℤ, pos}
use bit_magic_zi_modem.Pins.{Pins, signal, initial, find, assign, digital_write}
use bit_magic_zi_modem.Pins.Signals.{digital_writes, hear, hear-digital_writes}

abbrev board : Pins ℕ
board = record initial { value = (pos 9, pos 0) ∷ []; callback = some 7 }

abbrev toggles : List (ℤ × ℤ)
toggles = (pos 9, pos 1) ∷ (pos 9, pos 1) ∷ (pos 10, pos 0) ∷ []

toggles_run :
    (digital_writes board toggles).0 ≡ signal 7 (pos 9) (pos 1) ∷ signal 7 (pos 10) (pos 0) ∷ []
unfolding digital_writes digital_write find assign
toggles_run = refl

hear-digital_writes_example :
    hear (find board.value) (digital_writes board toggles).0 (pos 9)
    ≡ find (digital_writes board toggles).1.value (pos 9)
hear-digital_writes_example = hear-digital_writes board 7 toggles (pos 9) refl
