-- ===== src/Arduino/Itoa.antt =====
-- itoa: its digits fit in the buffer, and their value is the magnitude.
use bit_magic_zi_modem.Base.{
  ℕ, suc, ◌+◌, ◌-◌, ◌^◌, ◌≤◌, ◌<◌, ◌≡◌, refl, List, [], ◌∷◌, map, arith, ltb, if◌then◌else◌, length,
  All,
}
use mathlib.Core.List.{reverse, reverse-reverse, reverse-cons, map-append}
use bit_magic_zi_modem.Base.Int.{ℤ, pos, negsuc, pos_part, neg_part, ◌≤ℤ◌}
use bit_magic_zi_modem.Base.Digits.{
  number_low, number_low-digits_low, digits_low-lt, length-digits_low,
}
use bit_magic_zi_modem.Arduino.{digit_char, magnitude, itoa_digits}

-- The value of a character from '0' to '9' or from 'a' on, and the number that such characters
-- stand for, the highest digit first. What is no digit has a value here too: Arduino/Decimal says
-- which texts are numerals.
pub char_digit : ℕ → ℕ
char_digit c = if ltb c 97 then c - 48 else c - 97 + 10

pub numeral : ℕ → List ℕ → ℕ
unfolding number_low char_digit
numeral base text = number_low base (map char_digit (reverse text))

chars_back : (ds : List ℕ) → All (λ d. d < 36) ds → map char_digit (map digit_char ds) ≡ ds
unfolding char_digit
chars_back [] h = refl
chars_back (d ∷ ds) h = ground (arith, chars_back ds h.1)

All-weaken : (base : ℕ) (ds : List ℕ) → base ≤ 36 → All (λ d. d < base) ds → All (λ d. d < 36) ds
All-weaken base [] hb h = tt
All-weaken base (d ∷ ds) hb h = (omega (arith, h.0), All-weaken base ds hb h.1)

magnitude-lt : (value : ℤ) (base : ℕ) → magnitude value base < 2 ^ 32
unfolding magnitude
magnitude-lt (pos n) base = omega arith
magnitude-lt (negsuc n) base = ground arith

-- The digits never overrun the buffer `char digits[32]`, in any base from 2 on.
pub itoa_digits-fits : (value : ℤ) (base : ℕ) → 2 ≤ base → length (itoa_digits value base) ≤ 32
unfolding itoa_digits
itoa_digits-fits value base hb =
    length-digits_low (suc (magnitude value base)) base (magnitude value base) 31 hb
      (magnitude-lt value base)

pub map-reverse : (f : ℕ → ℕ) (xs : List ℕ) → map f (reverse xs) ≡ reverse (map f xs)
map-reverse f [] = refl
map-reverse f (x ∷ xs) =
    rw (reverse-cons x xs, reverse-cons (f x) (map f xs), map-append, map-reverse f xs)

-- The digits after the sign, for any value and base.
abbrev pub body : ℤ → ℕ → List ℕ
body value base = map digit_char (reverse (itoa_digits value base))

digits-magnitude :
    (value : ℤ) (base : ℕ)
    → 2 ≤ base
    → number_low base (itoa_digits value base) ≡ magnitude value base
unfolding itoa_digits
digits-magnitude value base hb =
    number_low-digits_low (suc (magnitude value base)) base (magnitude value base) hb (omega arith)

digits-lt : (value : ℤ) (base : ℕ) → 2 ≤ base → All (λ d. d < base) (itoa_digits value base)
unfolding itoa_digits
digits-lt value base hb =
    digits_low-lt (suc (magnitude value base)) base (magnitude value base) (omega arith)

pub body-numeral :
    (value : ℤ) (base : ℕ)
    → 2 ≤ base
    → base ≤ 36
    → numeral base (body value base) ≡ magnitude value base
unfolding numeral
body-numeral value base hb hm =
    let low = All-weaken base (itoa_digits value base) hm (digits-lt value base hb) in
    rw
      (
        map-reverse digit_char (itoa_digits value base),
        reverse-reverse,
        chars_back (itoa_digits value base) low,
      )
      (digits-magnitude value base hb)

pub magnitude-10 :
    (value : ℤ)
    → negsuc (2 ^ 31 - 1) ≤ℤ value
    → value ≤ℤ pos (2 ^ 31 - 1)
    → magnitude value 10 ≡ pos_part value + neg_part value
unfolding magnitude
magnitude-10 (pos n) lo hi = omega arith
magnitude-10 (negsuc n) lo hi = omega arith
