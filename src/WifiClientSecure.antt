-- ===== src/WifiClientSecure.antt =====
-- WiFiClientSecure of WiFiClientSecure.h: a WiFiClient whose operations go to a TlsSocket. The
-- base's socket is never used. The setters of certificates do nothing.
use bit_magic_zi_modem.Base.{ℕ, Bool, true, Option, none, some, List, if◌then◌else◌, get_or}
use bit_magic_zi_modem.Base.Int.{ℤ, pos, minus_one, ◌==ℤ◌}
use bit_magic_zi_modem.IpAddress.{IpAddress, of_u32, to_string}
use bit_magic_zi_modem.WString.{until_nul, CStr, or_empty}
use bit_magic_zi_modem.Net.Os.{Os}
use bit_magic_zi_modem.Tls.{Mbedtls, Tls}
use bit_magic_zi_modem.Tls as TlsSocket
use bit_magic_zi_modem.Tls.Session as Session
use bit_magic_zi_modem.Tls.Sending as Sending

module _ (os : Os) (tls : Mbedtls os) where
  pub record WifiClientSecure : Type 0 where
    pub socket : Tls os tls
    pub insecure : Bool

  -- `polls` is how often the handshake may wait before its deadline.
  unfoldable pub connect : ℕ → WifiClientSecure → CStr → ℕ → ℕ × WifiClientSecure
  unfolding Session.connect
  connect polls c host port =
      let (b, t) = Session.connect os tls polls c.socket (or_empty host) port in
      (if b then 1 else 0, record c { socket = t })

  unfoldable pub connect_ip : ℕ → WifiClientSecure → IpAddress → ℕ → ℕ × WifiClientSecure
  unfolding connect to_string
  connect_ip polls c ip port = connect polls c (some (until_nul (to_string ip).value)) port

  unfoldable pub connected : WifiClientSecure → ℕ
  unfolding TlsSocket.connected
  connected c = if TlsSocket.connected os tls c.socket then 1 else 0

  unfoldable pub available : WifiClientSecure → ℤ × WifiClientSecure
  unfolding TlsSocket.available
  available c = let (n, t) = TlsSocket.available os tls c.socket in (n, record c { socket = t })

  -- `tls_->read(&b, 1) == 1 ? b : -1`
  abbrev pub byte_of : ℤ → List ℕ → ℤ
  byte_of code buffer = if code ==ℤ pos 1 then pos (get_or buffer 0 0) else minus_one

  unfoldable pub read_byte : WifiClientSecure → ℤ × WifiClientSecure
  unfolding TlsSocket.read
  read_byte c =
      let (n, bytes, t) = TlsSocket.read os tls c.socket 1 in
      (byte_of n bytes, record c { socket = t })

  unfoldable pub read : WifiClientSecure → ℕ → ℤ × List ℕ × WifiClientSecure
  unfolding TlsSocket.read
  read c size =
      let (n, bytes, t) = TlsSocket.read os tls c.socket size in (n, bytes, record c { socket = t })

  unfoldable pub peek : WifiClientSecure → ℤ × WifiClientSecure
  unfolding TlsSocket.peek_byte
  peek c = let (n, t) = TlsSocket.peek_byte os tls c.socket in (n, record c { socket = t })

  abbrev pub stored : WifiClientSecure → Option (ℕ × Tls os tls) → Option (ℕ × WifiClientSecure)
  stored c none = none
  stored c (some (n, t)) = some (n, record c { socket = t })

  unfoldable pub write : ℕ → WifiClientSecure → List ℕ → Option (ℕ × WifiClientSecure)
  unfolding Sending.write
  write polls c buf = stored c (Sending.write os tls polls c.socket buf)

  unfoldable pub set_no_delay : WifiClientSecure → Bool → WifiClientSecure
  unfolding TlsSocket.set_no_delay
  set_no_delay c nodelay = record c { socket = TlsSocket.set_no_delay os tls c.socket nodelay }

  unfoldable pub stop : WifiClientSecure → WifiClientSecure
  unfolding TlsSocket.close
  stop c = record c { socket = TlsSocket.close os tls c.socket }

  unfoldable pub local_port : WifiClientSecure → ℕ
  unfolding TlsSocket.local_port
  local_port c = TlsSocket.local_port os tls c.socket

  unfoldable pub remote_ip : WifiClientSecure → IpAddress
  unfolding TlsSocket.remote_ip of_u32
  remote_ip c = of_u32 (TlsSocket.remote_ip os tls c.socket)

  unfoldable pub set_insecure : WifiClientSecure → WifiClientSecure
  set_insecure c = record c { insecure = true }
