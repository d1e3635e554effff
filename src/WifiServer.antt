-- ===== src/WifiServer.antt =====
-- WiFiServer of WiFiServer.h: a port and a listener.
use bit_magic_zi_modem.Base.{ℕ, Bool}
use bit_magic_zi_modem.Net.Os.{Os}
use bit_magic_zi_modem.Net.Listener.{TcpListener, closed}
use bit_magic_zi_modem.Net.Listener as Listener
use bit_magic_zi_modem.WifiClient.{Store, make_from}

pub record WifiServer : Type 0 where
  pub port : ℕ
  pub listener : TcpListener

abbrev pub of_port : ℕ → WifiServer
of_port port = record { port = port; listener = closed }

module _ (os : Os) where
  -- The answer of listen is not looked at.
  unfoldable pub begin : WifiServer → os.World → WifiServer × os.World
  unfolding Listener.listen
  begin s w =
      let (b, l, w') = Listener.listen os s.listener w s.port in (record s { listener = l }, w')

  unfoldable pub stop : WifiServer → os.World → WifiServer × os.World
  unfolding Listener.close
  stop s w = let (l, w') = Listener.close os s.listener w in (record s { listener = l }, w')

  unfoldable pub has_client : WifiServer → os.World → Bool
  unfolding Listener.has_pending_client
  has_client s w = Listener.has_pending_client os s.listener w

  -- The accepted socket, or one without a handle, goes into a new client at the number `c`.
  unfoldable pub available : WifiServer → os.World → Store → ℕ → Store × os.World
  unfolding Listener.accept make_from
  available s w st c =
      let (socket, w') = Listener.accept os s.listener w in (make_from st c socket, w')
