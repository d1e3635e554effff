-- ===== src/Arduino/ToString.antt =====
-- itoa in base 10 and the constructor of String from an int write the same characters.
use bit_magic_zi_modem.Base.{
  ℕ, suc, ◌+◌, ◌-◌, ◌^◌, ◌≡◌, refl, sym, ap, ◌∙◌, ◌<◌, List, [], ◌∷◌, map, arith, All,
}
use mathlib.Core.List.{reverse}
use bit_magic_zi_modem.Base.Int.{ℤ, pos, negsuc, ◌≤ℤ◌}
use bit_magic_zi_modem.Base.Digits.{digits_low, digits_low-lt, decimal}
use bit_magic_zi_modem.WString.Numbers.{to_string, of_number}
use bit_magic_zi_modem.Arduino.{digit_char, magnitude, itoa_digits, itoa}
use bit_magic_zi_modem.Arduino.Itoa.{magnitude-10, map-reverse}

low_chars : (ds : List ℕ) → All (λ d. d < 10) ds → map digit_char ds ≡ map (λ d. 48 + d) ds
low_chars [] h = refl
low_chars (d ∷ ds) h = ground (arith, h.0, low_chars ds h.1)

decimal_chars : (n : ℕ) → map digit_char (reverse (digits_low (suc n) 10 n)) ≡ decimal n
unfolding decimal
decimal_chars n =
    map-reverse digit_char (digits_low (suc n) 10 n)
    ∙ ap reverse (low_chars (digits_low (suc n) 10 n) (digits_low-lt (suc n) 10 n (omega arith)))
    ∙ sym (map-reverse (λ d. 48 + d) (digits_low (suc n) 10 n))

-- For every 32-bit int, itoa in base 10 writes the text of String(int).
pub itoa-of_number :
    (value : ℤ)
    → negsuc (2 ^ 31 - 1) ≤ℤ value
    → value ≤ℤ pos (2 ^ 31 - 1)
    → itoa value 10 ≡ (of_number value).value
unfolding itoa itoa_digits of_number to_string
itoa-of_number (pos n) lo hi =
    let e : magnitude (pos n) 10 ≡ n = omega (arith, magnitude-10 (pos n) lo hi) in
    rw e (decimal_chars n)
itoa-of_number (negsuc n) lo hi =
    let e : magnitude (negsuc n) 10 ≡ n + 1 = omega (arith, magnitude-10 (negsuc n) lo hi) in
    rw e (ap (λ cs. 45 ∷ cs) (decimal_chars (n + 1)))
