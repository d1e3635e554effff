-- ===== src/IpAddress/Tests.antt =====
-- IPAddress.h on concrete addresses, and its theorems there.
use bit_magic_zi_modem.Base.{◌≡◌, refl, ◌↔◌, true, arith, codes}
use bit_magic_zi_modem.Base.Digits.{decimal}
use bit_magic_zi_modem.IpAddress.{IpAddress, to_u32, equal, to_string}
use bit_magic_zi_modem.IpAddress.Words.{IsAddress, equal-to_u32}

abbrev home : IpAddress
home = record { o1 = 127; o2 = 0; o3 = 0; o4 = 1 }

home-IsAddress : IsAddress home
home-IsAddress = omega arith

to_string_runs : (to_string home).value ≡ codes "127.0.0.1"
unfolding to_string decimal
to_string_runs = refl

equal-to_u32_example : (equal home home ≡ true) ↔ (to_u32 home ≡ to_u32 home)
equal-to_u32_example = equal-to_u32 home home home-IsAddress home-IsAddress
