-- ===== src/Arduino.antt =====
-- itoa of Arduino.h.
pub mod Itoa
pub mod Decimal
pub mod ToString
pub mod Random
pub mod Wiring
mod Tests
use bit_magic_zi_modem.Base.{
  ℕ, suc, ◌+◌, ◌-◌, ◌%◌, ◌^◌, Bool, true, false, ◌&&◌, List, [], ◌∷◌, ◌++◌, map, ltb, ◌==◌,
  if◌then◌else◌,
}
use mathlib.Core.List.{reverse}
use bit_magic_zi_modem.Base.Int.{ℤ, pos, negsuc, to_u32, ltb_ℤ}
use bit_magic_zi_modem.Base.Digits.{digits_low}

-- `static_cast<char>(digit < 10 ? '0' + digit : 'a' + (digit - 10))`
abbrev pub digit_char : ℕ → ℕ
digit_char digit = if ltb digit 10 then 48 + digit else 97 + (digit - 10)

abbrev pub is_negative : ℤ → Bool
is_negative (pos n) = false
is_negative (negsuc n) = true

-- `uvalue`: `-(value + 1)` of a negative value is `n` where the value is -(n + 1).
unfoldable pub magnitude : ℤ → ℕ → ℕ
magnitude (pos n) base = to_u32 (pos n)
magnitude (negsuc n) base = if base == 10 then (n + 1) % 2 ^ 32 else to_u32 (negsuc n)

-- The digits that the do-while loop leaves in the buffer `digits`, the lowest first.
unfoldable pub itoa_digits : ℤ → ℕ → List ℕ
itoa_digits value base = digits_low (suc (magnitude value base)) base (magnitude value base)

-- The characters that itoa writes before the NUL. The base is from 2 to 36.
unfoldable pub itoa : ℤ → ℕ → List ℕ
itoa value base =
    (if base == 10 && is_negative value then 45 ∷ [] else [])
    ++ map digit_char (reverse (itoa_digits value base))
