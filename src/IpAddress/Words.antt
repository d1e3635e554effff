-- ===== src/IpAddress/Words.antt =====
-- IPAddress.h: the 32-bit form, the indexing and the text.
use bit_magic_zi_modem.Base.{
  ℕ, ◌^◌, ◌≤◌, ◌<◌, ◌≡◌, refl, ◌↔◌, true, ◌∷◌, ◌++◌, arith, leb, leb→le, ◌==◌, if◌then◌else◌,
  length, length-append, take_all, passes_below, passes_below_at,
}
use bit_magic_zi_modem.Base.Int.{ℤ, pos, negsuc}
use bit_magic_zi_modem.Base.Digits.{decimal}
use bit_magic_zi_modem.IpAddress.{
  IpAddress, of_u32, to_u32, slot, octet, set_octet, equal, dotted, to_string,
}

-- The four fields are bytes.
pub record IsAddress (ip : IpAddress) : Type 0 where
  pub b1 : ip.o1 < 256
  pub b2 : ip.o2 < 256
  pub b3 : ip.o3 < 256
  pub b4 : ip.o4 < 256

-- A 32-bit word goes through an address and back unchanged, and the address has bytes.
pub to_u32-of_u32 : (w : ℕ) → w < 2 ^ 32 → (to_u32 (of_u32 w) ≡ w) × IsAddress (of_u32 w)
unfolding to_u32 of_u32
to_u32-of_u32 w h = (omega arith, omega arith)

-- An address goes through its 32-bit word and back unchanged.
pub of_u32-to_u32 :
    (ip : IpAddress) → IsAddress ip → (of_u32 (to_u32 ip) ≡ ip) × (to_u32 ip < 2 ^ 32)
unfolding to_u32 of_u32
of_u32-to_u32 ip v = (ground arith, omega arith)

-- Two addresses are equal by operator== exactly if their words are the same.
pub equal-to_u32 :
    (a b : IpAddress) → IsAddress a → IsAddress b → (equal a b ≡ true) ↔ (to_u32 a ≡ to_u32 b)
unfolding equal to_u32
equal-to_u32 a b va vb = ground arith

slot-lt : (i : ℤ) → slot i < 4
unfolding slot
slot-lt (pos n) = omega arith
slot-lt (negsuc n) = omega arith

-- A write of an octet shows at the indices of the same slot alone; an index is taken modulo 4.
pub octet-set_octet :
    (ip : IpAddress) (i j : ℤ) (b : ℕ)
    → octet (set_octet ip i b) j ≡ (if slot i == slot j then b else octet ip j)
unfolding octet set_octet
octet-set_octet ip i j b = ground (arith, slot-lt i, slot-lt j)

decimal-length_table : passes_below (λ b. leb (length (decimal b)) 3) 256 ≡ true
unfolding passes_below decimal
decimal-length_table = refl

decimal-length : (b : ℕ) → b < 256 → length (decimal b) ≤ 3
decimal-length b h =
    leb→le (length (decimal b)) 3
      (passes_below_at (λ b. leb (length (decimal b)) 3) 256 b h decimal-length_table)

-- The text of an address fits in the buffer of 16 characters, so that toString cuts nothing off.
pub to_string-dotted : (ip : IpAddress) → IsAddress ip → (to_string ip).value ≡ dotted ip
unfolding to_string
to_string-dotted ip v = take_all 15 (dotted ip) (
    omega (
      arith,
      decimal-length ip.o1 v.b1,
      decimal-length ip.o2 v.b2,
      decimal-length ip.o3 v.b3,
      decimal-length ip.o4 v.b4,
      length-append (decimal ip.o1) (46 ∷ decimal ip.o2),
      length-append (decimal ip.o1 ++ (46 ∷ decimal ip.o2)) (46 ∷ decimal ip.o3),
      length-append (decimal ip.o1 ++ (46 ∷ decimal ip.o2) ++ (46 ∷ decimal ip.o3))
          (46 ∷ decimal ip.o4),
    ))
