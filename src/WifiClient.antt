-- ===== src/WifiClient.antt =====
-- WiFiClient of WiFiClient.h. A client holds a shared pointer to its socket, so here it is the
-- number of a socket in a store, and a copy of a client is the same number.
use bit_magic_zi_modem.Base.{
  ℕ, ◌≡◌, refl, Bool, Option, none, some, List, [], if◌then◌else◌, ◌==◌, ==_iff, get_or,
}
use bit_magic_zi_modem.Base.Int.{ℤ, pos, minus_one, ◌==ℤ◌}
use bit_magic_zi_modem.IpAddress.{IpAddress, of_u32, to_string}
use bit_magic_zi_modem.WString.{until_nul}
use bit_magic_zi_modem.Net.Os.{Os}
use bit_magic_zi_modem.Net.Tcp.{TcpSocket, Read, unconnected}
use bit_magic_zi_modem.Net.Tcp as Tcp

abbrev pub Store : Type 0
Store = ℕ → TcpSocket

abbrev pub put : Store → ℕ → TcpSocket → Store
put st c s j = if j == c then s else st j

-- The constructors, at a number `c` that no client has.
unfoldable pub make : Store → ℕ → Store
make st c = put st c unconnected

unfoldable pub make_from : Store → ℕ → TcpSocket → Store
make_from st c socket = put st c socket

-- `host ? host : ""`
abbrev pub or_empty : Option (List ℕ) → List ℕ
or_empty none = []
or_empty (some host) = host

module _ (os : Os) where
  unfoldable pub connect : Store → os.World → ℕ → Option (List ℕ) → ℕ → ℕ × Store × os.World
  unfolding Tcp.connect
  connect st w c host port =
      let (b, s, w') = Tcp.connect os (st c) w (or_empty host) port in
      (if b then 1 else 0, put st c s, w')

  unfoldable pub connect_ip : Store → os.World → ℕ → IpAddress → ℕ → ℕ × Store × os.World
  unfolding connect to_string
  connect_ip st w c ip port = connect st w c (some (until_nul (to_string ip).value)) port

  unfoldable pub connected : Store → os.World → ℕ → ℕ
  unfolding Tcp.connected
  connected st w c = if Tcp.connected os (st c) w then 1 else 0

  unfoldable pub available : Store → os.World → ℕ → ℕ
  unfolding Tcp.available
  available st w c = Tcp.available os (st c) w

  -- `socket_->read(&b, 1) == 1 ? b : -1`
  abbrev pub byte_of : Read → ℤ
  byte_of r = if r.code ==ℤ pos 1 then pos (get_or r.buffer 0 0) else minus_one

  unfoldable pub read_byte : Store → os.World → ℕ → ℤ × Store × os.World
  unfolding Tcp.read
  read_byte st w c = let (r, s, w') = Tcp.read os (st c) w 1 in (byte_of r, put st c s, w')

  unfoldable pub read : Store → os.World → ℕ → ℕ → Read × Store × os.World
  unfolding Tcp.read
  read st w c size = let (r, s, w') = Tcp.read os (st c) w size in (r, put st c s, w')

  unfoldable pub peek : Store → os.World → ℕ → ℤ × Store × os.World
  unfolding Tcp.peek_byte
  peek st w c = let (r, s, w') = Tcp.peek_byte os (st c) w in (r, put st c s, w')

  unfoldable pub write : Store → os.World → ℕ → List ℕ → ℕ × os.World
  unfolding Tcp.write
  write st w c buf = Tcp.write os (st c) w buf

  unfoldable pub set_no_delay : Store → os.World → ℕ → Bool → os.World
  unfolding Tcp.set_no_delay
  set_no_delay st w c nodelay = Tcp.set_no_delay os (st c) w nodelay

  unfoldable pub stop : Store → os.World → ℕ → Store × os.World
  unfolding Tcp.close
  stop st w c = let (s, w') = Tcp.close os (st c) w in (put st c s, w')

  unfoldable pub local_port : Store → os.World → ℕ → ℕ
  unfolding Tcp.local_port
  local_port st w c = Tcp.local_port os (st c) w

  unfoldable pub remote_ip : Store → os.World → ℕ → IpAddress
  unfolding Tcp.remote_ip of_u32
  remote_ip st w c = of_u32 (Tcp.remote_ip os (st c) w)

  -- Every copy of a client that was stopped is disconnected, and has nothing to read.
  stopped_for_all :
      (st : Store) (w : os.World) (c : ℕ)
      → let (st', w') = stop st w c in
        (connected st' w' c ≡ 0) × (available st' w' c ≡ 0) × (local_port st' w' c ≡ 0)
  unfolding stop connected available local_port Tcp.close Tcp.connected Tcp.available Tcp.local_port
  stopped_for_all st w c = rw ((==_iff c c).1 refl) (refl, refl, refl)
