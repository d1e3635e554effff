-- ===== src/Sockets.antt =====
-- The objects of WiFiClient.h, WiFiServer.h and WiFiUdp.h that are alive at one time, over one
-- operating system, and what their users may do next: a step relation.
pub mod Separate
mod Tests
use bit_magic_zi_modem.Base.{ℕ, ◌≡◌, Bool, Option, none, some, List, ◌==◌, if◌then◌else◌}
use bit_magic_zi_modem.WString.{CStr}
use bit_magic_zi_modem.IpAddress.{IpAddress}
use bit_magic_zi_modem.Net.Os.{Os}
use bit_magic_zi_modem.Net.Udp.{UdpSocket}
use bit_magic_zi_modem.WifiClient.{Store}
use bit_magic_zi_modem.WifiClient as Client
use bit_magic_zi_modem.WifiServer.{WifiServer}
use bit_magic_zi_modem.WifiServer as Server
use bit_magic_zi_modem.WifiUdp

-- An object that may hold a descriptor.
pub data Slot : Type 0 where
  client server datagrams : ℕ → Slot

abbrev pub update {ℓ} : {A : Type ℓ} → (ℕ → A) → ℕ → A → ℕ → A
update f i a j = if j == i then a else f j

module _ (os : Os) where
  pub record Sockets : Type 0 where
    pub clients : Store
    pub servers : ℕ → WifiServer
    pub udps : ℕ → UdpSocket
    pub world : os.World

  abbrev pub own : Sockets → Slot → Option ℕ
  own s (client c) = (s.clients c).handle
  own s (server l) = (s.servers l).listener.handle
  own s (datagrams u) = (s.udps u).handle

  -- The clients' sockets, one server, or one datagram socket, as an operation leaves them.
  abbrev pub with_clients : Sockets → Store × os.World → Sockets
  with_clients s (st, w) = record s { clients = st; world = w }

  abbrev pub with_answer {ℓ} : {A : Type ℓ} → Sockets → A × Store × os.World → Sockets
  with_answer s (a, st, w) = record s { clients = st; world = w }

  abbrev pub with_server : Sockets → ℕ → WifiServer × os.World → Sockets
  with_server s l (v, w) = record s { servers = update s.servers l v; world = w }

  abbrev pub with_udp : Sockets → ℕ → UdpSocket → os.World → Sockets
  with_udp s u d w = record s { udps = update s.udps u d; world = w }

  abbrev pub with_packet {ℓ} : {A : Type ℓ} → Sockets → ℕ → A × UdpSocket × os.World → Sockets
  with_packet s u (a, d, w) = with_udp s u d w

  -- A client that is made, or that takes an accepted socket, is a new object: it stands at a
  -- number that holds no descriptor.
  pub data Step : Sockets → Sockets → Type 0 where
    makes :
        (s : Sockets) (c : ℕ)
        → own s (client c) ≡ none
        → Step s (with_clients s (Client.make s.clients c, s.world))
    connects :
        (s : Sockets) (c : ℕ) (host : CStr) (port : ℕ)
        → Step s (with_answer s (Client.connect os s.clients s.world c host port))
    connects_ip :
        (s : Sockets) (c : ℕ) (ip : IpAddress) (port : ℕ)
        → Step s (with_answer s (Client.connect_ip os s.clients s.world c ip port))
    reads_byte :
        (s : Sockets) (c : ℕ) → Step s (with_answer s (Client.read_byte os s.clients s.world c))
    reads :
        (s : Sockets) (c size : ℕ)
        → Step s (with_answer s (Client.read os s.clients s.world c size))
    peeks : (s : Sockets) (c : ℕ) → Step s (with_answer s (Client.peek os s.clients s.world c))
    writes :
        (s : Sockets) (c : ℕ) (buf : List ℕ)
        → Step s (with_clients s (s.clients, (Client.write os s.clients s.world c buf).1))
    sets_no_delay :
        (s : Sockets) (c : ℕ) (nodelay : Bool)
        → Step s (with_clients s (s.clients, Client.set_no_delay os s.clients s.world c nodelay))
    stops : (s : Sockets) (c : ℕ) → Step s (with_clients s (Client.stop os s.clients s.world c))
    listens :
        (s : Sockets) (l : ℕ) → Step s (with_server s l (Server.begin os (s.servers l) s.world))
    stops_listening :
        (s : Sockets) (l : ℕ) → Step s (with_server s l (Server.stop os (s.servers l) s.world))
    accepts :
        (s : Sockets) (l c : ℕ)
        → own s (client c) ≡ none
        → Step s (with_clients s (Server.available os (s.servers l) s.world s.clients c))
    binds :
        (s : Sockets) (u port : ℕ)
        → Step s (with_packet s u (WifiUdp.begin os (s.udps u) s.world port))
    starts_packet :
        (s : Sockets) (u : ℕ) (ip : IpAddress) (port : ℕ)
        → Step s (with_udp s u (WifiUdp.begin_packet (s.udps u) ip port).1 s.world)
    adds_to_packet :
        (s : Sockets) (u : ℕ) (buf : List ℕ)
        → Step s (with_udp s u (WifiUdp.write (s.udps u) buf).1 s.world)
    sends_packet :
        (s : Sockets) (u : ℕ) → Step s (with_packet s u (WifiUdp.end_packet os (s.udps u) s.world))
    takes_packet :
        (s : Sockets) (u : ℕ)
        → Step s (with_packet s u (WifiUdp.parse_packet os (s.udps u) s.world))
    reads_packet :
        (s : Sockets) (u len : ℕ) → Step s (with_udp s u (WifiUdp.read (s.udps u) len).2 s.world)

  pub data Reach (s : Sockets) : Sockets → Type 0 where
    here : Reach s s
    next : {t v : Sockets} → Reach s t → Step t v → Reach s v
