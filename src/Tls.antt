-- ===== src/Tls.antt =====
-- TlsSocket of tls.cpp, over TcpSocket and the mbedTLS library, which is a parameter.
pub mod Plain
pub mod Incoming
pub mod Session
pub mod Sending
mod Tests
use bit_magic_zi_modem.Base.{
  ℕ, zero, suc, ◌+◌, ◌-◌, Bool, true, false, not, ◌&&◌, ◌||◌, Option, none, some, List, [], ◌∷◌,
  ◌++◌, if◌then◌else◌, ◌==◌, ltb, length, take, drop,
}
use bit_magic_zi_modem.Base.Int.{ℤ, pos, negsuc, minus_one, to_int}
use bit_magic_zi_modem.Net.Os.{Os}
use bit_magic_zi_modem.Net.Tcp.{TcpSocket, Read}
use bit_magic_zi_modem.Net.Tcp as Tcp

-- What a BIO call answers: a positive count, MBEDTLS_ERR_SSL_WANT_*, or an error.
pub data Bio {ℓ} (A : Type ℓ) : Type ℓ where
  moved : A → Bio A
  want broken : Bio A

-- What mbedtls_ssl_read answers: bytes, a WANT, or 0, close_notify or an error.
pub data Decrypted : Type 0 where
  plain : List ℕ → Decrypted
  waits over : Decrypted

-- What mbedtls_ssl_write and mbedtls_ssl_handshake answer: a count or 0, a WANT, or an error.
pub data Progress : Type 0 where
  did : ℕ → Progress
  blocked refused : Progress

pub record Glue (os : Os) : Type 0 where
  pub send : TcpSocket → os.World → List ℕ → Bio ℕ × os.World
  pub recv : TcpSocket → os.World → ℕ → Bio (List ℕ) × TcpSocket × os.World

-- The library: a state, and its calls, which move bytes through the glue they were given.
pub record Mbedtls (os : Os) : Type 1 where
  pub State : Type 0
  pub seed : State → Bool × State
  pub config_defaults : State → Bool × State
  pub setup : State → Bool × State
  pub set_hostname : State → List ℕ → State
  pub handshake : Glue os → State → TcpSocket → os.World → Progress × State × TcpSocket × os.World
  pub ssl_read :
      Glue os → State → TcpSocket → os.World → ℕ → Decrypted × State × TcpSocket × os.World
  pub ssl_write :
      Glue os → State → TcpSocket → os.World → List ℕ → Progress × State × TcpSocket × os.World
  pub close_notify : Glue os → State → TcpSocket → os.World → State × TcpSocket × os.World

module _ (os : Os) where
  abbrev pub sent : TcpSocket → ℕ × os.World → Bio ℕ × os.World
  sent s (n, w) = (if ltb 0 n then moved n else if Tcp.connected os s w then want else broken, w)

  unfoldable pub bio_send : TcpSocket → os.World → List ℕ → Bio ℕ × os.World
  unfolding Tcp.write Tcp.connected
  bio_send s w buf = sent s (Tcp.write os s w buf)

  abbrev pub got : Read × TcpSocket × os.World → Bio (List ℕ) × TcpSocket × os.World
  got (r, s, w) = (
    elim r.code [
      | pos zero ↦ if Tcp.connected os s w then want else broken
      | pos (suc n) ↦ moved (take (suc n) r.buffer)
      | negsuc n ↦ broken
    ],
    s,
    w,
  )

  unfoldable pub bio_recv : TcpSocket → os.World → ℕ → Bio (List ℕ) × TcpSocket × os.World
  unfolding Tcp.read Tcp.connected
  bio_recv s w len = got (Tcp.read os s w len)

  unfoldable pub glue : Glue os
  unfolding bio_send bio_recv
  glue = record { send = bio_send; recv = bio_recv }

-- `TlsSocketImpl`, with the world that its calls change.
pub record Tls (os : Os) (tls : Mbedtls os) : Type 0 where
  pub tcp : TcpSocket
  pub state : tls.State
  pub rx : List ℕ
  pub rxpos : ℕ
  pub handshaked : Bool
  pub fatal : Bool
  pub world : os.World

module _ (os : Os) (tls : Mbedtls os) where
  -- `rx.size() - rxpos` in size_t; the position is never past the end.
  abbrev pub buffered : Tls os tls → ℕ
  buffered s = length s.rx - s.rxpos

  abbrev pub pumped : Tls os tls → Decrypted × tls.State × TcpSocket × os.World → Tls os tls
  pumped s (plain bs, m, t, w) = record s { tcp = t; state = m; rx = bs; rxpos = 0; world = w }
  pumped s (waits, m, t, w) = record s { tcp = t; state = m; rx = []; rxpos = 0; world = w }
  pumped s (over, m, t, w) = record s {
    tcp = t;
    state = m;
    rx = [];
    rxpos = 0;
    fatal = true;
    world = w;
  }

  unfoldable pub pump : Tls os tls → Tls os tls
  unfolding glue
  pump s =
      if ltb s.rxpos (length s.rx) || s.fatal
      then s
      else pumped s (tls.ssl_read (glue os) s.state s.tcp s.world 1536)

  unfoldable pub connected : Tls os tls → Bool
  unfolding Tcp.connected
  connected s = s.handshaked && not s.fatal && Tcp.connected os s.tcp s.world

  unfoldable pub available : Tls os tls → ℤ × Tls os tls
  unfolding pump
  available s = if s.handshaked then (to_int (buffered (pump s)), pump s) else (pos 0, s)

  -- `std::min(len, avail)`
  abbrev pub count : Tls os tls → ℕ → ℕ
  count s len = if ltb (buffered s) len then buffered s else len

  -- The bytes are those that read copies into the caller's buffer.
  abbrev pub read_pumped : Tls os tls → ℕ → ℤ × List ℕ × Tls os tls
  read_pumped s len = if buffered s == 0 then (if s.fatal then minus_one else pos 0, [], s) else (
    to_int (count s len),
    take (count s len) (drop s.rxpos s.rx),
    record s { rxpos = s.rxpos + count s len },
  )

  unfoldable pub read : Tls os tls → ℕ → ℤ × List ℕ × Tls os tls
  unfolding pump
  read s len = if not s.handshaked || len == 0 then (pos 0, [], s) else read_pumped (pump s) len

  abbrev pub first : List ℕ → ℤ
  first [] = minus_one
  first (b ∷ bs) = pos b

  unfoldable pub peek_byte : Tls os tls → ℤ × Tls os tls
  unfolding pump
  peek_byte s =
      if s.handshaked then (first (drop (pump s).rxpos (pump s).rx), pump s) else (minus_one, s)

  -- close_notify only on a session that is not over.
  abbrev pub notified : Tls os tls → tls.State × TcpSocket × os.World
  notified s =
      if s.handshaked && not s.fatal
      then tls.close_notify (glue os) s.state s.tcp s.world
      else (s.state, s.tcp, s.world)

  abbrev pub shut : Tls os tls → TcpSocket × os.World → Tls os tls
  shut s (t, w) = record s {
    tcp = t;
    world = w;
    rx = [];
    rxpos = 0;
    handshaked = false;
    fatal = true;
  }

  unfoldable pub close : Tls os tls → Tls os tls
  unfolding Tcp.close glue
  close s = let n = notified s in shut (record s { state = n.0 }) (Tcp.close os n.1 n.2)

  -- Each record is handed straight to the socket: nothing is left to flush.
  unfoldable pub flush : Tls os tls → Tls os tls
  flush s = s

  unfoldable pub set_no_delay : Tls os tls → Bool → Tls os tls
  unfolding Tcp.set_no_delay
  set_no_delay s enable = record s { world = Tcp.set_no_delay os s.tcp s.world enable }

  unfoldable pub local_port : Tls os tls → ℕ
  unfolding Tcp.local_port
  local_port s = Tcp.local_port os s.tcp s.world

  unfoldable pub remote_ip : Tls os tls → ℕ
  unfolding Tcp.remote_ip
  remote_ip s = Tcp.remote_ip os s.tcp s.world
