-- ===== src/Arduino/Random.antt =====
-- random of Arduino.h. `r` is what std::rand answers, from 0 on; a long is the integer that it
-- stands for.
use bit_magic_zi_modem.Base.{ℕ, ◌+◌, ◌-◌, ◌%◌, ◌≡◌, ◌<◌, true, arith, ltb, if◌then◌else◌, lt→ltb}
use bit_magic_zi_modem.Base.Int.{ℤ, pos, negsuc, pos_part, neg_part, ltb_ℤ, ◌≤ℤ◌}
use native.Mathlib.Nat.{mod-lt}

-- `max - min` where max is the larger one.
abbrev pub distance : ℤ → ℤ → ℕ
distance min max = (pos_part max + neg_part min) - (pos_part min + neg_part max)

abbrev pub plus_nat : ℤ → ℕ → ℤ
plus_nat (pos a) n = pos (a + n)
plus_nat (negsuc a) n = if ltb a n then pos (n - a - 1) else negsuc (a - n)

-- `max > 0 ? std::rand() % max : 0`
unfoldable pub random_below : ℕ → ℤ → ℤ
random_below r max = if ltb_ℤ (pos 0) max then pos (r % pos_part max) else pos 0

-- `max > min ? min + (std::rand() % (max - min)) : min`
unfoldable pub random : ℕ → ℤ → ℤ → ℤ
random r min max = if ltb_ℤ min max then plus_nat min (r % distance min max) else min

plus_nat_lem :
    (min : ℤ) (n : ℕ)
    → pos_part (plus_nat min n) + neg_part min ≡ pos_part min + neg_part (plus_nat min n) + n
plus_nat_lem (pos a) n = omega arith
plus_nat_lem (negsuc a) n = ground arith

-- Whatever rand answers, random(min, max) is from min on and below max where max is above min, and
-- random(max) is random(0, max).
pub random_bounds :
    (r : ℕ) (min max : ℤ)
    → ltb_ℤ min max ≡ true
    → (min ≤ℤ random r min max) × (ltb_ℤ (random r min max) max ≡ true)
unfolding random
random_bounds r min max h =
    let z : 0 < distance min max = ground (arith, h) in
    let b = mod-lt r z in
    let e = plus_nat_lem min (r % distance min max) in
    rw h (omega (arith, e), lt→ltb _ _ (omega (arith, b, e)))

pub random_below_lem : (r : ℕ) (max : ℤ) → random_below r max ≡ random r (pos 0) max
unfolding random random_below
random_below_lem r (pos b) = ground arith
random_below_lem r (negsuc b) = ground arith
