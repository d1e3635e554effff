-- ===== src/Wifi.antt =====
-- The global `WiFi` of WiFi.h: a host that is always connected. Its begin, disconnect, mode and
-- config do nothing, and a scan finds no network.
use bit_magic_zi_modem.Base.{ℕ, Bool, true, false, Option, none, some, List, [], codes}
use bit_magic_zi_modem.Base.Int.{ℤ, pos}
use bit_magic_zi_modem.WString.{String, CStr, or_empty, of_cstr}
use bit_magic_zi_modem.IpAddress.{IpAddress, of_u32}
use bit_magic_zi_modem.Net.Os.{Os}
use bit_magic_zi_modem.Net.Tcp.{resolve_ipv4}

pub data WlStatus : Type 0 where
  wl_connected : WlStatus

pub record WifiClass : Type 0 where
  pub local_ip : IpAddress
  pub hostname : List ℕ

abbrev pub initial : WifiClass
initial = record { local_ip = record { o1 = 127; o2 = 0; o3 = 0; o4 = 1 }; hostname = [] }

unfoldable pub status : WifiClass → WlStatus
status s = wl_connected

unfoldable pub begin : WifiClass → CStr → CStr → Bool
begin s ssid password = true

unfoldable pub config : WifiClass → IpAddress → IpAddress → IpAddress → IpAddress → Bool
config s ip gateway subnet dns = true

-- setHostname and hostname.
unfoldable pub set_hostname : WifiClass → CStr → WifiClass
set_hostname s name = record s { hostname = or_empty name }

unfoldable pub local_ip_of : WifiClass → IpAddress
local_ip_of s = s.local_ip

unfoldable pub gateway_ip : WifiClass → IpAddress
gateway_ip s = record { o1 = 192; o2 = 168; o3 = 1; o4 = 1 }

unfoldable pub subnet_mask : WifiClass → IpAddress
subnet_mask s = record { o1 = 255; o2 = 255; o3 = 255; o4 = 0 }

unfoldable pub scan_networks : WifiClass → ℕ
scan_networks s = 0

unfoldable pub ssid : WifiClass → ℕ → String
ssid s i = of_cstr (some [])

unfoldable pub rssi : WifiClass → ℤ → ℤ
rssi s i = pos 0

-- ENC_TYPE_NONE
unfoldable pub encryption_type : WifiClass → ℤ → ℤ
encryption_type s i = pos 0

unfoldable pub disconnect : WifiClass → WifiClass
disconnect s = s

-- The argument is a wifi_mode_t.
unfoldable pub mode : WifiClass → ℤ → WifiClass
mode s m = s

unfoldable pub mac_address : WifiClass → String
mac_address s = of_cstr (some (codes "00:00:00:00:00:00"))

module _ (os : Os) where
  -- The out parameter keeps its value where the name is not resolved.
  abbrev pub resolved : IpAddress → Option ℕ × os.World → Bool × IpAddress × os.World
  resolved out (none, w) = (false, out, w)
  resolved out (some addr, w) = (true, of_u32 addr, w)

  unfoldable pub host_by_name : os.World → CStr → IpAddress → Bool × IpAddress × os.World
  unfolding resolve_ipv4 of_u32
  host_by_name w host out = resolved out (resolve_ipv4 os w (or_empty host))
