-- ===== src/Arduino/Decimal.antt =====
-- itoa in base 10, against the decimal numerals.
use bit_magic_zi_modem.Base.{
  ℕ, zero, suc, ◌+◌, ◌-◌, ◌^◌, ◌≤◌, ◌<◌, ◌≡◌, ◌≢◌, ◌/◌, ◌%◌, refl, sym, ap, subst, ◌∙◌, List, [],
  ◌∷◌, ◌++◌, map, arith, ◌==◌, ==_iff, All, inl, inr, Bool-cases,
}
use mathlib.Core.List.{reverse, reverse-cons}
use bit_magic_zi_modem.Base.Int.{ℤ, pos, negsuc, ◌≤ℤ◌}
use bit_magic_zi_modem.Base.Digits.{digits_low, digits_low-lt}
use bit_magic_zi_modem.Arduino.{digit_char, magnitude, itoa_digits, itoa}
use bit_magic_zi_modem.Arduino.Itoa.{numeral, body-numeral, magnitude-10}

-- A decimal numeral: characters from '0' to '9', at least one of them, with no leading zero but for
-- the single "0", and with this value.
pub record IsNumeral (text : List ℕ) (n : ℕ) : Type 0 where
  pub digits : All (λ c. (48 ≤ c) × (c < 58)) text
  pub not_empty : text ≢ []
  pub leading : (rest : List ℕ) → text ≡ 48 ∷ rest → rest ≡ []
  pub value : numeral 10 text ≡ n

-- The text is the numeral of the value, behind a minus sign for a negative one.
pub data Denotes (text : List ℕ) : ℤ → Type 0 where
  plain : (n : ℕ) → IsNumeral text n → Denotes text (pos n)
  signed : (n : ℕ) (t : List ℕ) → text ≡ 45 ∷ t → IsNumeral t (n + 1) → Denotes text (negsuc n)

-- The highest of some digits, the lowest first, is not zero.
abbrev Topped : List ℕ → Type 0
Topped [] = ⊥
Topped (d ∷ []) = d ≢ 0
Topped (d ∷ e ∷ ds) = Topped (e ∷ ds)

Topped-cons : (d : ℕ) (ds : List ℕ) → Topped ds → Topped (d ∷ ds)
Topped-cons d [] t = absurd t
Topped-cons d (e ∷ ds) t = t

digits_low-Topped : (f n : ℕ) → 0 < n → n < f → Topped (digits_low f 10 n)
unfolding digits_low
digits_low-Topped zero n p h = absurd (omega (arith, h))
digits_low-Topped (suc f) n p h = elim (Bool-cases (n / 10 == 0)) [
  | inl e ↦ let q : n / 10 ≡ 0 = (==_iff (n / 10) 0).0 e in rw e (λ z. omega (arith, q, z, p))
  | inr e ↦
      let q : 0 < n / 10 = ground (arith, e) in
      rw e (
        Topped-cons (n % 10) (digits_low f 10 (n / 10))
          (digits_low-Topped f (n / 10) q (omega (arith, h))))
]

-- The highest digit comes first in the text.
reverse-Topped :
    (ds : List ℕ) → Topped ds → (x : ℕ) × (xs : List ℕ) × (reverse ds ≡ x ∷ xs) × (x ≢ 0)
reverse-Topped [] t = absurd t
reverse-Topped (d ∷ []) t = (d, [], refl, t)
reverse-Topped (d ∷ e ∷ ds) t =
    let r = reverse-Topped (e ∷ ds) t in
    (r.0, r.1 ++ (d ∷ []), reverse-cons d (e ∷ ds) ∙ ap (λ v. v ++ (d ∷ [])) r.2, r.3)

All-snoc :
    (xs : List ℕ) (x : ℕ) → All (λ d. d < 10) xs → x < 10 → All (λ d. d < 10) (xs ++ (x ∷ []))
All-snoc [] x a b = (b, tt)
All-snoc (y ∷ xs) x a b = (a.0, All-snoc xs x a.1 b)

All-reverse : (xs : List ℕ) → All (λ d. d < 10) xs → All (λ d. d < 10) (reverse xs)
All-reverse [] a = tt
All-reverse (x ∷ xs) a =
    subst (All (λ d. d < 10)) (sym (reverse-cons x xs))
      (All-snoc (reverse xs) x (All-reverse xs a.1) a.0)

chars : (ds : List ℕ) → All (λ d. d < 10) ds → All (λ c. (48 ≤ c) × (c < 58)) (map digit_char ds)
chars [] a = tt
chars (d ∷ ds) a =
    let p : 48 ≤ digit_char d = ground (arith, a.0) in
    let q : digit_char d < 58 = ground (arith, a.0) in ((p, q), chars ds a.1)

-- The text of the digits of a number.
abbrev text_of : ℕ → List ℕ
text_of m = map digit_char (reverse (digits_low (suc m) 10 m))

text_of-head : (m : ℕ) → 0 < m → (text_of m ≢ []) × ((rest : List ℕ) → text_of m ≢ 48 ∷ rest)
text_of-head m p =
    let r =
      reverse-Topped (digits_low (suc m) 10 m) (digits_low-Topped (suc m) m p (omega arith)) in
    let t : text_of m ≡ digit_char r.0 ∷ map digit_char r.1 = ap (map digit_char) r.2 in
    (
      (λ e. cc (t, e)),
      (λ rest e. let same : digit_char r.0 ≡ 48 = cc (sym t ∙ e) in r.3 (ground (arith, same))),
    )

text_of-IsNumeral : (m : ℕ) → numeral 10 (text_of m) ≡ m → IsNumeral (text_of m) m
unfolding digits_low
text_of-IsNumeral zero v = record {
  digits = ((omega arith, omega arith), tt);
  not_empty = λ e. cc (e);
  leading = λ rest e. cc (e);
  value = v;
}
text_of-IsNumeral (suc m) v =
    let t = text_of-head (suc m) (omega arith) in
    record {
      digits =
          chars (reverse (digits_low (suc (suc m)) 10 (suc m)))
            (All-reverse _ (digits_low-lt (suc (suc m)) 10 (suc m) (omega arith)));
      not_empty = t.0;
      leading = λ rest e. absurd (t.1 rest e);
      value = v;
    }

body-IsNumeral :
    (value : ℤ) (n : ℕ)
    → magnitude value 10 ≡ n
    → IsNumeral (map digit_char (reverse (itoa_digits value 10))) n
unfolding itoa_digits
body-IsNumeral value n e =
    subst (λ m. IsNumeral (text_of m) n) (sym e)
      (text_of-IsNumeral n (
        ap (λ m. numeral 10 (text_of m)) (sym e)
        ∙ body-numeral value 10 (omega arith) (omega arith)
        ∙ e))

-- In base 10 itoa writes the decimal numeral of the value, without leading zeros, behind a minus
-- sign for a negative value and only there, for every `int`, INT_MIN included.
pub itoa-Denotes :
    (value : ℤ)
    → negsuc (2 ^ 31 - 1) ≤ℤ value
    → value ≤ℤ pos (2 ^ 31 - 1)
    → Denotes (itoa value 10) value
unfolding itoa
itoa-Denotes (pos n) lo hi =
    plain n (body-IsNumeral (pos n) n (magnitude-10 (pos n) lo hi ∙ omega arith))
itoa-Denotes (negsuc n) lo hi =
    signed n (map digit_char (reverse (itoa_digits (negsuc n) 10))) refl
      (body-IsNumeral (negsuc n) (n + 1) (magnitude-10 (negsuc n) lo hi ∙ omega arith))
