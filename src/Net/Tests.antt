-- ===== src/Net/Tests.antt =====
-- The theorems at concrete sockets of the small operating system.
use bit_magic_zi_modem.Base.{◌≡◌, refl, false, none, some, [], ◌∷◌, ◌++◌, arith, length, codes, min}
use bit_magic_zi_modem.Base.Int.{minus_one}
use bit_magic_zi_modem.Net.Toy.{
  calm, broken, calm_streams, broken_streams, calm_descriptors, world, calm_recv,
}
use bit_magic_zi_modem.Net.Tcp.{TcpSocket, close, connect, read, peek_byte}
use bit_magic_zi_modem.Net.Tcp.Stream.{
  at, Use, peeks, reads, use_all, use_all-stream, peek_byte-Peeked, Peeked, read-Keeps,
  read_drops_pushed, delivered,
}
use bit_magic_zi_modem.Net.Tcp.Stream as Streams
use bit_magic_zi_modem.Net.Tcp.{resolve_ipv4}
use bit_magic_zi_modem.Net.Tcp.Descriptors.{Owns, close-Owns, connect-Owns}
use bit_magic_zi_modem.Net.Listener.{TcpListener, listen, listen-Owns}
use bit_magic_zi_modem.Net.Listener as Listeners
use bit_magic_zi_modem.Net.Udp.{
  UdpSocket, unbound, begin_packet, write_all, read_all, end_packet, unread, IsInside,
}
use bit_magic_zi_modem.Net.Udp.Packets.{read_all-unread, end_packet-write_all}

abbrev socket3 : TcpSocket
socket3 = record { handle = some 3; peeked = none }

peek_then_read : (use_all calm socket3 world (peeks ∷ reads 2 ∷ peeks ∷ peeks ∷ [])).0 ≡ codes "AB"
unfolding use_all read peek_byte
peek_then_read = refl

read-Keeps_example :
    delivered (read calm socket3 world 2).0
      ++ Streams.stream calm calm_streams
          (read calm socket3 world 2).1
          (read calm socket3 world 2).2
    ≡ codes "ABC"
read-Keeps_example =
    read-Keeps calm calm_streams socket3 world 2 (at 3 none) (omega arith) (λ h k e. refl)

use_all-stream_example :
    let (bs, s, w) = use_all calm socket3 world (peeks ∷ reads 2 ∷ []) in
    bs ++ Streams.stream calm calm_streams s w ≡ codes "ABC"
use_all-stream_example =
    use_all-stream calm calm_streams (peeks ∷ reads 2 ∷ []) socket3 world (at 3 none)
      (tt, (omega arith, tt)) calm_recv

read_drops_pushed_example :
    let (r, s, w) = read broken (record { handle = some 3; peeked = some 90 }) world 2 in
    (r.code ≡ minus_one)
    × (s.peeked ≡ none)
    × (codes "ZABC" ≡ 90 ∷ Streams.stream broken broken_streams s w)
read_drops_pushed_example = read_drops_pushed broken broken_streams 3 90 2 world (omega arith) refl

close-Owns_example :
    Owns calm calm_descriptors world socket3
      (close calm socket3 world).1
      (close calm socket3 world).0
close-Owns_example = close-Owns calm calm_descriptors socket3 world

connect-Owns_example :
    let (b, s, w) = connect calm socket3 world (codes "localhost") 80 in
    Owns calm calm_descriptors world socket3 w s
connect-Owns_example = connect-Owns calm calm_descriptors socket3 world (codes "localhost") 80

-- Port 80 refuses: the old descriptor 3 and the new descriptor 4 are both closed.
refused : (connect calm socket3 world (codes "localhost") 80).0 ≡ false
unfolding connect
refused = refl

abbrev listener3 : TcpListener
listener3 = record { handle = some 3 }

listen-Owns_example :
    let (b, l, w) = listen calm listener3 world 23 in
    Listeners.Owns calm calm_descriptors world listener3 w l
listen-Owns_example = listen-Owns calm calm_descriptors listener3 world 23

abbrev udp3 : UdpSocket
udp3 = record unbound { handle = some 3; recv_buffer = codes "reply"; recv_pos = 1 }

read_all-unread_example :
    let r = read_all udp3 (2 ∷ 9 ∷ []) in
    (codes "eply" ≡ r.0 ++ unread r.1) × (length r.0 ≡ min 11 4) × IsInside r.1
read_all-unread_example = read_all-unread udp3 (2 ∷ 9 ∷ []) (omega arith)

localhost_resolved : (resolve_ipv4 calm world (codes "localhost")).0 ≡ some 16777343
unfolding resolve_ipv4
localhost_resolved = refl

end_packet-write_all_example :
    let v = (resolve_ipv4 calm world (codes "localhost")).1 in
    let r = calm.sendto v 3 (codes "abc") 16777343 123 in
    end_packet calm
      (write_all (begin_packet udp3 (codes "localhost") 123).1 (codes "ab" ∷ codes "c" ∷ []))
      world
    ≡ (
      r.0,
      record udp3 { pending_host = codes "localhost"; pending_port = 123; send_buffer = [] },
      r.1,
    )
end_packet-write_all_example =
    end_packet-write_all calm udp3 world (codes "localhost") 123 3 16777343
      (codes "ab" ∷ codes "c" ∷ []) refl localhost_resolved
