-- ===== src/Net/Udp.antt =====
-- UdpSocket of net.cpp: datagrams out of a sequence of writes, and into a sequence of reads.
pub mod Packets
use bit_magic_zi_modem.Base.{
  ℕ, ◌+◌, ◌-◌, ◌≤◌, ◌≡◌, refl, sym, ap, ◌∙◌, Bool, true, false, Option, none, some, List, [], ◌∷◌,
  ◌++◌, if◌then◌else◌, ◌==◌, ltb, length, take, drop, min, arith, Bool-cases, inl, inr,
  take-append-drop, drop-drop, length-take, length-drop,
}
use bit_magic_zi_modem.Base.Int.{ℤ, pos, to_int}
use bit_magic_zi_modem.Net.Os.{Os, Received, bytes, orderly_close, would_block, failed, datagram}
use bit_magic_zi_modem.Net.Tcp.{resolve_ipv4}

pub record UdpSocket : Type 0 where
  pub handle : Option ℕ
  pub pending_host : List ℕ
  pub pending_port : ℕ
  pub send_buffer : List ℕ
  pub recv_buffer : List ℕ
  pub recv_pos : ℕ

abbrev pub unbound : UdpSocket
unbound = record {
  handle = none;
  pending_host = [];
  pending_port = 0;
  send_buffer = [];
  recv_buffer = [];
  recv_pos = 0;
}

unfoldable pub begin_packet : UdpSocket → List ℕ → ℕ → Bool × UdpSocket
begin_packet s host port =
    (true, record s { pending_host = host; pending_port = port; send_buffer = [] })

unfoldable pub write : UdpSocket → List ℕ → ℕ × UdpSocket
write s buf = (length buf, record s { send_buffer = s.send_buffer ++ buf })

-- `recv_buffer_.size() - recv_pos_` in size_t; the position is never past the end.
abbrev pub remaining : UdpSocket → ℕ
remaining s = length s.recv_buffer - s.recv_pos

-- `len < remaining ? len : remaining`
abbrev pub count : UdpSocket → ℕ → ℕ
count s len = if ltb len (remaining s) then len else remaining s

-- The bytes are those that read copies into the caller's buffer.
unfoldable pub read : UdpSocket → ℕ → ℤ × List ℕ × UdpSocket
read s len =
    let n = count s len in
    if n == 0
    then (pos 0, [], s)
    else (to_int n, take n (drop s.recv_pos s.recv_buffer), record s { recv_pos = s.recv_pos + n })

abbrev pub no_packet : UdpSocket → UdpSocket
no_packet s = record s { recv_buffer = []; recv_pos = 0 }

-- From what recvfrom answered, `n <= 0` being everything but a datagram that has bytes.
abbrev pub parsed : UdpSocket → Received → ℤ × UdpSocket
parsed s (bytes []) = (pos 0, no_packet s)
parsed s (bytes (b ∷ bs)) =
    (to_int (length (b ∷ bs)), record s { recv_buffer = b ∷ bs; recv_pos = 0 })
parsed s orderly_close = (pos 0, no_packet s)
parsed s would_block = (pos 0, no_packet s)
parsed s failed = (pos 0, no_packet s)

module _ (os : Os) where
  abbrev pub parse_done : UdpSocket → Received × os.World → ℤ × UdpSocket × os.World
  parse_done s (r, w) = let p = parsed s r in (p.0, p.1, w)

  unfoldable pub parse_packet : UdpSocket → os.World → ℤ × UdpSocket × os.World
  parse_packet s w = elim s.handle [
    | none ↦ (pos 0, s, w)
    | some h ↦ parse_done s (os.recvfrom w h 2048)
  ]

  abbrev pub sent : UdpSocket → Bool × os.World → Bool × UdpSocket × os.World
  sent s (b, w) = (b, record s { send_buffer = [] }, w)

  -- Where the name is not resolved, the buffer stays as it is.
  abbrev pub send_to : UdpSocket → ℕ → Option ℕ × os.World → Bool × UdpSocket × os.World
  send_to s h (none, w) = (false, s, w)
  send_to s h (some addr, w) = sent s (os.sendto w h s.send_buffer addr s.pending_port)

  unfoldable pub end_packet : UdpSocket → os.World → Bool × UdpSocket × os.World
  unfolding resolve_ipv4
  end_packet s w = elim s.handle [
    | none ↦ (false, s, w)
    | some h ↦ send_to s h (resolve_ipv4 os w s.pending_host)
  ]

  unfoldable pub close : UdpSocket → os.World → UdpSocket × os.World
  close s w = (
    record s { handle = none; recv_buffer = []; recv_pos = 0 },
    elim s.handle [ none ↦ w | some h ↦ os.close w h ],
  )

  -- The destructor.
  unfoldable pub destruct : UdpSocket → os.World → os.World
  unfolding close
  destruct s w = (close s w).1

  abbrev pub bound : UdpSocket → ℕ → Bool × os.World → Bool × UdpSocket × os.World
  bound s h (true, w) = (true, record s { handle = some h }, os.set_non_blocking w h)
  bound s h (false, w) = (false, s, os.close w h)

  abbrev pub begin_on : UdpSocket → ℕ → Option ℕ × os.World → Bool × UdpSocket × os.World
  begin_on s port (none, w) = (false, s, w)
  begin_on s port (some h, w) = bound s h (os.bind w h port)

  unfoldable pub begin : UdpSocket → os.World → ℕ → Bool × UdpSocket × os.World
  unfolding close
  begin s w port = let c = close s w in begin_on c.0 port (os.socket c.1 datagram)

-- What the reads have still to hand out.
abbrev pub unread : UdpSocket → List ℕ
unread s = drop s.recv_pos s.recv_buffer

abbrev pub IsInside : UdpSocket → Type 0
IsInside s = s.recv_pos ≤ length s.recv_buffer

abbrev pub concat : List (List ℕ) → List ℕ
concat [] = []
concat (c ∷ cs) = c ++ concat cs

unfoldable pub write_all : UdpSocket → List (List ℕ) → UdpSocket
unfolding write
write_all s [] = s
write_all s (c ∷ cs) = write_all (write s c).1 cs

-- Reads with the given sizes of buffer, the bytes in a row.
unfoldable pub read_all : UdpSocket → List ℕ → List ℕ × UdpSocket
unfolding read
read_all s [] = ([], s)
read_all s (n ∷ ns) = let r = read s n in let t = read_all r.2 ns in (r.1 ++ t.0, t.1)
