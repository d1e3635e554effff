-- ===== src/WifiUdp.antt =====
-- WiFiUDP of WiFiUdp.h: a UdpSocket whose packets go to an IPAddress.
use bit_magic_zi_modem.Base.{ℕ, Bool, List}
use bit_magic_zi_modem.Base.Int.{ℤ}
use bit_magic_zi_modem.IpAddress.{IpAddress, to_string}
use bit_magic_zi_modem.WString.{until_nul}
use bit_magic_zi_modem.Net.Os.{Os}
use bit_magic_zi_modem.Net.Udp.{UdpSocket}
use bit_magic_zi_modem.Net.Udp as Udp

-- `std::string(ip.toString().c_str())`
abbrev pub host_of : IpAddress → List ℕ
host_of ip = until_nul (to_string ip).value

unfoldable pub begin_packet : UdpSocket → IpAddress → ℕ → Bool × UdpSocket
unfolding Udp.begin_packet
begin_packet s ip port = Udp.begin_packet s (host_of ip) port

unfoldable pub write : UdpSocket → List ℕ → ℕ × UdpSocket
unfolding Udp.write
write s buf = Udp.write s buf

unfoldable pub read : UdpSocket → ℕ → ℤ × List ℕ × UdpSocket
unfolding Udp.read
read s len = Udp.read s len

module _ (os : Os) where
  unfoldable pub begin : UdpSocket → os.World → ℕ → Bool × UdpSocket × os.World
  unfolding Udp.begin
  begin s w local_port = Udp.begin os s w local_port

  unfoldable pub end_packet : UdpSocket → os.World → Bool × UdpSocket × os.World
  unfolding Udp.end_packet
  end_packet s w = Udp.end_packet os s w

  unfoldable pub parse_packet : UdpSocket → os.World → ℤ × UdpSocket × os.World
  unfolding Udp.parse_packet
  parse_packet s w = Udp.parse_packet os s w
