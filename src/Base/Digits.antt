-- ===== src/Base/Digits.antt =====
-- Decimal digits, as std::to_string and the %u and %d conversions print a number.
use bit_magic_zi_modem.Base.Tests.{◌==◌, if◌then◌else◌, Bool-cases, ==_iff}
use bit_magic_zi_modem.Base.Bytes.{All}
use bit_magic_zi_modem.Base.Lists.{length}
use Prim.Native.Nat.{ℕ, zero, suc, ◌+◌, ◌*◌, ◌/◌, ◌%◌, ◌≤◌, ◌<◌, ◌^◌}
use mathlib.Core.Path.{◌≡◌, ap}
use mathlib.Core.Logic.{inl, inr}
use mathlib.Core.Bool.{true, false}
use mathlib.Core.List.{List, [], ◌∷◌, map, reverse}
use native.Mathlib.Nat.{
  div-add-mod, mod-lt, mul_comm, div-lt_self, div-le_self, div-lt_iff_lt-mul, pow-suc,
}
use native.Mathlib.Omega.{arith}

-- The digits of `n` in the given base, the lowest first; one round of fuel for each digit.
unfoldable pub digits_low : ℕ → ℕ → ℕ → List ℕ
digits_low zero base n = []
digits_low (suc f) base n =
    let rest = digits_low f base (n / base) in
    if n / base == 0 then (n % base) ∷ [] else (n % base) ∷ rest

-- The number that a list of digits stands for, the lowest digit first.
unfoldable pub number_low : ℕ → List ℕ → ℕ
number_low base [] = 0
number_low base (d ∷ ds) = d + base * number_low base ds

-- The decimal digits of `n` as characters, the highest first.
unfoldable pub decimal : ℕ → List ℕ
unfolding digits_low
decimal n = map (λ d. 48 + d) (reverse (digits_low (suc n) 10 n))

-- Enough fuel gives digits that stand for the number.
pub number_low-digits_low :
    (f base n : ℕ) → 2 ≤ base → n < f → number_low base (digits_low f base n) ≡ n
unfolding digits_low number_low
number_low-digits_low zero base n hb h = absurd (omega arith)
number_low-digits_low (suc f) base n hb h = elim (Bool-cases (n / base == 0)) [
  | inl e ↦ rw e (step (n / base) ((==_iff (n / base) 0).0 e))
  | inr e ↦
      let ih = number_low-digits_low f base (n / base) hb (smaller e) in
      rw (e, ih) (omega (arith, div-add-mod n base, mul_comm base (n / base)))
]
  where
    step : (q : ℕ) → n / base ≡ 0 → n % base + base * 0 ≡ n
    step q z = omega (arith, div-add-mod n base, ap (λ k. base * k) z, mul_comm base (n / base))

    smaller : (n / base == 0) ≡ false → n / base < f
    smaller e =
        let p : 0 < n = ground (arith, div-le_self n base) in
        omega (arith, div-lt_self {n = n} {k = base} p hb)

-- Every digit is below the base.
pub digits_low-lt : (f base n : ℕ) → 0 < base → All (λ d. d < base) (digits_low f base n)
unfolding digits_low
digits_low-lt zero base n h = tt
digits_low-lt (suc f) base n h = ground (arith, digits_low-lt f base (n / base) h, mod-lt n h)

quotient-lt : (n base k : ℕ) → 2 ≤ base → n < 2 ^ suc (suc k) → n / base < 2 ^ suc k
quotient-lt n base k hb h = (div-lt_iff_lt-mul {k = base} {x = n} {y = 2 ^ suc k} (omega arith)).1 (
    let e : 2 ^ suc (suc k) ≡ 2 ^ suc k * 2 = pow-suc 2 (suc k) in
    let m : 2 ^ suc k * 2 ≤ 2 ^ suc k * base = grind arith in omega (arith, e, m))

quotient-zero : (n base : ℕ) → 2 ≤ base → n < 2 → n / base ≡ 0
quotient-zero n base hb h =
    let q = (div-lt_iff_lt-mul {k = base} {x = n} {y = 1} (omega arith)).1 (omega arith) in
    omega (arith, q)

-- A number below 2 ^ (k + 1) has at most k + 1 digits in any base.
pub length-digits_low :
    (f base n k : ℕ) → 2 ≤ base → n < 2 ^ suc k → length (digits_low f base n) ≤ suc k
unfolding digits_low
length-digits_low zero base n k hb h = omega arith
length-digits_low (suc f) base n zero hb h =
    let e : (n / base == 0) ≡ true = (==_iff (n / base) 0).1 (quotient-zero n base hb h) in
    rw e (omega arith)
length-digits_low (suc f) base n (suc k) hb h =
    ground (arith, length-digits_low f base (n / base) k hb (quotient-lt n base k hb h))
