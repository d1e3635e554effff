-- ===== src/IpAddress.antt =====
-- IPAddress.h: an IPv4 address as four bytes.
pub mod Words
mod Tests
use bit_magic_zi_modem.Base.{
  ℕ, suc, ◌+◌, ◌-◌, ◌*◌, ◌/◌, ◌%◌, ◌^◌, Bool, true, ◌&&◌, not, some, List, [], ◌∷◌, ◌++◌, ◌==◌,
  take, if◌then◌else◌,
}
use bit_magic_zi_modem.Base.Int.{ℤ, pos, negsuc}
use bit_magic_zi_modem.Base.Digits.{decimal}
use bit_magic_zi_modem.WString.{String, of_cstr}

pub record IpAddress : Type 0 where
  pub o1 : ℕ
  pub o2 : ℕ
  pub o3 : ℕ
  pub o4 : ℕ

abbrev pub default : IpAddress
default = record { o1 = 0; o2 = 0; o3 = 0; o4 = 0 }

-- `IPAddress(uint32_t)`: each byte is a shift of the address, cut to 8 bits.
unfoldable pub of_u32 : ℕ → IpAddress
of_u32 address = record {
  o1 = address % 256;
  o2 = address / 2 ^ 8 % 256;
  o3 = address / 2 ^ 16 % 256;
  o4 = address / 2 ^ 24 % 256;
}

-- `operator uint32_t`: the bytes do not overlap, so the bitwise or of the shifts is their sum.
unfoldable pub to_u32 : IpAddress → ℕ
to_u32 ip = ip.o1 + ip.o2 * 2 ^ 8 + ip.o3 * 2 ^ 16 + ip.o4 * 2 ^ 24

-- `static_cast<size_t>(index) & 3`, the two lowest bits of the index sign-extended to 64 bits.
unfoldable pub slot : ℤ → ℕ
slot (pos n) = n % 4
slot (negsuc n) = (2 ^ 64 - 1 - n % 2 ^ 64) % 4

unfoldable pub octet : IpAddress → ℤ → ℕ
octet ip index =
    if slot index == 0
    then ip.o1
    else if slot index == 1
    then ip.o2
    else if slot index == 2
    then ip.o3
    else ip.o4

-- An assignment through `uint8_t& operator[](int)`.
unfoldable pub set_octet : IpAddress → ℤ → ℕ → IpAddress
set_octet ip index b =
    if slot index == 0
    then record ip { o1 = b }
    else if slot index == 1
    then record ip { o2 = b }
    else if slot index == 2
    then record ip { o3 = b }
    else record ip { o4 = b }

unfoldable pub equal : IpAddress → IpAddress → Bool
equal a b = a.o1 == b.o1 && (a.o2 == b.o2 && (a.o3 == b.o3 && a.o4 == b.o4))

unfoldable pub not_equal : IpAddress → IpAddress → Bool
unfolding equal
not_equal a b = not (equal a b)

-- What the format "%u.%u.%u.%u" prints.
abbrev pub dotted : IpAddress → List ℕ
dotted ip = decimal ip.o1 ++ (46 ∷ decimal ip.o2) ++ (46 ∷ decimal ip.o3) ++ (46 ∷ decimal ip.o4)

-- snprintf into `char buf[16]` keeps at most 15 characters.
unfoldable pub to_string : IpAddress → String
to_string ip = of_cstr (some (take 15 (dotted ip)))
