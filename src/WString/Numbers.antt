-- ===== src/WString/Numbers.antt =====
-- The constructors of String from numbers, over std::to_string.
use bit_magic_zi_modem.Base.{ℕ, ◌+◌, List, ◌∷◌}
use bit_magic_zi_modem.Base.Int.{ℤ, pos, negsuc}
use bit_magic_zi_modem.Base.Digits.{decimal}
use bit_magic_zi_modem.WString.{String}

-- std::to_string of an integer: its decimal digits, behind a minus sign where it is negative.
unfoldable pub to_string : ℤ → List ℕ
unfolding decimal
to_string (pos n) = decimal n
to_string (negsuc n) = 45 ∷ decimal (n + 1)

-- String(int) and String(long); the unsigned ones are those of the values that are not negative.
unfoldable pub of_number : ℤ → String
unfolding to_string
of_number value = record { value = to_string value }
