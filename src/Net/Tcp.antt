-- ===== src/Net/Tcp.antt =====
-- TcpSocket of net.cpp, and resolve_ipv4. An operation returns its result, the socket and the
-- world behind the call.
pub mod Stream
pub mod Descriptors
use bit_magic_zi_modem.Base.{
  ℕ, suc, ◌+◌, ◌-◌, ◌%◌, ◌^◌, Bool, true, false, Option, none, some, List, [], ◌∷◌, ◌++◌, ltb, ◌==◌,
  if◌then◌else◌, length, get_or,
}
use bit_magic_zi_modem.Base.Int.{ℤ, pos, negsuc, minus_one, to_int, ◌==ℤ◌}
use bit_magic_zi_modem.Net.Os.{
  Os, Received, bytes, orderly_close, would_block, failed, Kind, stream,
}

-- `handle_`, `none` for kInvalid, and the byte that peek_byte pushed back, `none` for -1.
pub record TcpSocket : Type 0 where
  pub handle : Option ℕ
  pub peeked : Option ℕ

-- The default constructor, and what a moved-from socket is.
abbrev pub unconnected : TcpSocket
unconnected = record { handle = none; peeked = none }

abbrev pub adopt : Option ℕ → TcpSocket
adopt native = record { handle = native; peeked = none }

abbrev pub is_some {ℓ} : {A : Type ℓ} → Option A → Bool
is_some none = false
is_some (some a) = true

abbrev pub is_open : TcpSocket → Bool
is_open s = is_some s.handle

-- The count that read returns, and the bytes that it put into the buffer.
pub record Read : Type 0 where
  pub code : ℤ
  pub buffer : List ℕ

abbrev pub nothing : Read
nothing = record { code = pos 0; buffer = [] }

abbrev pub looks_up : Received → Bool
looks_up (bytes bs) = true
looks_up orderly_close = false
looks_up would_block = true
looks_up failed = false

abbrev pub or_zero : Option ℕ → ℕ
or_zero none = 0
or_zero (some n) = n

-- The answer of read, from the bytes already taken from the pushback and what recv answered.
abbrev pub read_result : List ℕ → Received → Read
read_result written (bytes bs) = record {
  code = to_int (length written + length bs);
  buffer = written ++ bs;
}
read_result written orderly_close = record {
  code = if ltb 0 (length written) then to_int (length written) else minus_one;
  buffer = written;
}
read_result written would_block = record { code = to_int (length written); buffer = written }
read_result written failed = record { code = minus_one; buffer = written }

module _ (os : Os) where
  -- The dotted form first, then the resolver.
  abbrev pub resolve_by : os.World → List ℕ → Option ℕ → Option ℕ × os.World
  resolve_by w host (some direct) = (some direct, w)
  resolve_by w host none = os.getaddrinfo w host

  unfoldable pub resolve_ipv4 : os.World → List ℕ → Option ℕ × os.World
  resolve_ipv4 w host = resolve_by w host (os.inet_pton host)

  -- The native handle is closed if there is one, and the pushed-back byte is dropped.
  unfoldable pub close : TcpSocket → os.World → TcpSocket × os.World
  close s w = (unconnected, elim s.handle [ none ↦ w | some h ↦ os.close w h ])

  -- The destructor.
  unfoldable pub destruct : TcpSocket → os.World → os.World
  unfolding close
  destruct s w = (close s w).1

  -- There is no send buffer in the process.
  unfoldable pub flush : TcpSocket → TcpSocket
  flush s = s

  -- From a handle that `::connect` was called on.
  abbrev pub connect_done : ℕ → Bool × os.World → Bool × TcpSocket × os.World
  connect_done h (true, w) = (true, adopt (some h), os.set_non_blocking w h)
  connect_done h (false, w) = (false, unconnected, os.close w h)

  abbrev pub connect_to : ℕ → ℕ → Option ℕ × os.World → Bool × TcpSocket × os.World
  connect_to addr port (none, w) = (false, unconnected, w)
  connect_to addr port (some h, w) = connect_done h (os.connect w h addr port)

  abbrev pub connect_resolved : ℕ → Option ℕ × os.World → Bool × TcpSocket × os.World
  connect_resolved port (none, w) = (false, unconnected, w)
  connect_resolved port (some addr, w) = connect_to addr port (os.socket w stream)

  unfoldable pub connect : TcpSocket → os.World → List ℕ → ℕ → Bool × TcpSocket × os.World
  unfolding close resolve_ipv4
  connect s w host port = connect_resolved port (resolve_ipv4 (close s w).1 host)

  unfoldable pub connected : TcpSocket → os.World → Bool
  connected s w = elim s.handle [ none ↦ false | some h ↦ looks_up (os.recv_peek w h 1) ]

  unfoldable pub available : TcpSocket → os.World → ℕ
  available s w = elim s.handle [
    | none ↦ 0
    | some h ↦ or_zero (os.fionread w h) + (if is_some s.peeked then 1 else 0)
  ]

  abbrev pub read_more : ℕ → List ℕ → ℕ → Received × os.World → Read × TcpSocket × os.World
  read_more h written len (r, w) = (read_result written r, adopt (some h), w)

  -- read at an open handle, with the pushed-back byte if there is one.
  abbrev pub read_at : ℕ → Option ℕ → os.World → ℕ → Read × TcpSocket × os.World
  read_at h none w len = read_more h [] len (os.recv w h len)
  read_at h (some b) w len =
      if len == 1
      then (record { code = pos 1; buffer = b ∷ [] }, adopt (some h), w)
      else read_more h (b ∷ []) len (os.recv w h (len - 1))

  unfoldable pub read : TcpSocket → os.World → ℕ → Read × TcpSocket × os.World
  read s w len = elim s.handle [
    | none ↦ (nothing, s, w)
    | some h ↦ if len == 0 then (nothing, s, w) else read_at h s.peeked w len
  ]

  -- `if (n == 1) { peeked_ = b; return b; } return -1;`
  abbrev pub peek_done : Read × TcpSocket × os.World → ℤ × TcpSocket × os.World
  peek_done (r, s, w) =
      if r.code ==ℤ pos 1
      then (pos (get_or r.buffer 0 0), record s { peeked = some (get_or r.buffer 0 0) }, w)
      else (minus_one, s, w)

  unfoldable pub peek_byte : TcpSocket → os.World → ℤ × TcpSocket × os.World
  unfolding read
  peek_byte s w = elim s.peeked [ some b ↦ (pos b, s, w) | none ↦ peek_done (read s w 1) ]

  abbrev pub sent : Option ℕ × os.World → ℕ × os.World
  sent (none, w) = (0, w)
  sent (some n, w) = (n, w)

  unfoldable pub write : TcpSocket → os.World → List ℕ → ℕ × os.World
  write s w buf = elim s.handle [
    | none ↦ (0, w)
    | some h ↦ if length buf == 0 then (0, w) else sent (os.send w h buf)
  ]

  unfoldable pub set_no_delay : TcpSocket → os.World → Bool → os.World
  set_no_delay s w enable = elim s.handle [ none ↦ w | some h ↦ os.set_tcp_no_delay w h enable ]

  unfoldable pub local_port : TcpSocket → os.World → ℕ
  local_port s w = elim s.handle [ none ↦ 0 | some h ↦ or_zero (os.local_port_of w h) ]

  unfoldable pub remote_ip : TcpSocket → os.World → ℕ
  remote_ip s w = elim s.handle [ none ↦ 0 | some h ↦ or_zero (os.peer_address_of w h) ]

  -- The move assignment between two sockets: the target, the source left behind, and the world.
  unfoldable pub move_assign : TcpSocket → TcpSocket → os.World → TcpSocket × TcpSocket × os.World
  unfolding close
  move_assign s other w = (other, unconnected, (close s w).1)
