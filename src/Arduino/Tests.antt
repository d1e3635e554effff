-- ===== src/Arduino/Tests.antt =====
-- itoa on concrete values, and its theorems there.
use bit_magic_zi_modem.Base.{◌-◌, ◌^◌, ◌≡◌, refl, arith, codes}
use bit_magic_zi_modem.Base.Int.{negsuc}
use bit_magic_zi_modem.Base.Digits.{digits_low}
use bit_magic_zi_modem.Arduino.{magnitude, itoa_digits, itoa}
use bit_magic_zi_modem.Arduino.Decimal.{Denotes, itoa-Denotes}

itoa_min : itoa (negsuc (2 ^ 31 - 1)) 10 ≡ codes "-2147483648"
unfolding itoa itoa_digits magnitude digits_low
itoa_min = refl

itoa_hex : itoa (negsuc 0) 16 ≡ codes "ffffffff"
unfolding itoa itoa_digits magnitude digits_low
itoa_hex = refl

itoa-Denotes_example : Denotes (itoa (negsuc 41) 10) (negsuc 41)
itoa-Denotes_example = itoa-Denotes (negsuc 41) (omega arith) (omega arith)
