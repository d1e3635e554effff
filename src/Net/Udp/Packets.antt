-- ===== src/Net/Udp/Packets.antt =====
-- A datagram out of the writes between begin_packet and end_packet, and into the reads behind
-- parse_packet.
use mathlib.Core.List.{append-nil, append_assoc}
use bit_magic_zi_modem.Base.{
  ℕ, ◌+◌, ◌≡◌, refl, sym, ap, ◌∙◌, false, Option, none, some, List, [], ◌∷◌, ◌++◌, ◌==◌, length,
  take, min, arith, Bool-cases, inl, inr, ==_iff, take-append-drop, drop-drop, length-take,
  length-drop, length-append,
}
use bit_magic_zi_modem.Net.Os.{Os}
use bit_magic_zi_modem.Net.Tcp.{resolve_ipv4}
use bit_magic_zi_modem.Net.Udp.{
  UdpSocket, begin_packet, write, read, count, unread, IsInside, concat, write_all, read_all,
  end_packet, sent, send_to,
}

abbrev pub total : List ℕ → ℕ
total [] = 0
total (n ∷ ns) = n + total ns

write_all_lem :
    (s : UdpSocket) (cs : List (List ℕ))
    → write_all s cs ≡ record s { send_buffer = s.send_buffer ++ concat cs }
unfolding write_all write
write_all_lem s [] = λ i. record s { send_buffer = sym (append-nil s.send_buffer) i }
write_all_lem s (c ∷ cs) =
    write_all_lem (record s { send_buffer = s.send_buffer ++ c }) cs
    ∙ (λ i. record s { send_buffer = append_assoc s.send_buffer c (concat cs) i })

count_lem : (s : UdpSocket) (len : ℕ) → count s len ≡ min len (length (unread s))
count_lem s len = ground (arith, length-drop s.recv_pos s.recv_buffer)

-- One read: the bytes and what is left are what was left before, and the count is as asked for,
-- as far as there are bytes.
read_lem :
    (s : UdpSocket) (len : ℕ)
    → IsInside s
    → let r = read s len in
      (unread s ≡ r.1 ++ unread r.2) × (length r.1 ≡ min len (length (unread s))) × IsInside r.2
unfolding read
read_lem s len v = elim (Bool-cases (count s len == 0)) [
  | inl e ↦ rw e (refl, sym ((==_iff (count s len) 0).0 e) ∙ count_lem s len, v)
  | inr e ↦ rw e (
    sym (take-append-drop (count s len) (unread s))
        ∙ ap (λ ys. take (count s len) (unread s) ++ ys)
            (drop-drop (count s len) s.recv_pos s.recv_buffer),
    length-take (count s len) (unread s) ∙ omega (arith, count_lem s len),
    omega (arith, v, count_lem s len, length-drop s.recv_pos s.recv_buffer),
  )
]

-- A sequence of reads hands out the bytes of the datagram from its front, each once and in order:
-- as many as asked for in all, as far as there are bytes, and the rest stays to be read.
pub read_all-unread :
    (s : UdpSocket) (ns : List ℕ)
    → IsInside s
    → let r = read_all s ns in
      (unread s ≡ r.0 ++ unread r.1)
      × (length r.0 ≡ min (total ns) (length (unread s)))
      × IsInside r.1
unfolding read_all
read_all-unread s [] v = (refl, omega arith, v)
read_all-unread s (n ∷ ns) v =
    let a = read_lem s n v in
    let r = read s n in
    let b = read_all-unread r.2 ns a.2 in
    (
      a.0 ∙ ap (λ ys. r.1 ++ ys) b.0 ∙ sym (append_assoc r.1 (read_all r.2 ns).0 _),
      omega (
        arith,
        length-append r.1 (read_all r.2 ns).0,
        a.1,
        b.1,
        ap length a.0,
        length-append r.1 (unread r.2),
      ),
      b.2,
    )

send_to_lem :
    (os : Os) (s : UdpSocket) (h addr : ℕ) (r : Option ℕ × os.World)
    → r.0 ≡ some addr
    → send_to os s h r ≡ sent os s (os.sendto r.1 h s.send_buffer addr s.pending_port)
send_to_lem os s h addr (none, w) e = cc
send_to_lem os s h addr (some a, w) e = ap (λ o. send_to os s h (o, w)) e

end_packet_at :
    (os : Os) (s : UdpSocket) (w : os.World) (h : ℕ)
    → s.handle ≡ some h
    → end_packet os s w ≡ send_to os s h (resolve_ipv4 os w s.pending_host)
unfolding end_packet
end_packet_at os s w h e =
    ap
      (λ o. elim o [
        | none ↦ (false, s, w)
        | some h ↦ send_to os s h (resolve_ipv4 os w s.pending_host)
      ])
      e

-- Between begin_packet and end_packet the writes make up one datagram: end_packet sends their
-- bytes in one piece to the address and port of begin_packet, if the name is resolved, answers
-- whether sendto did, and leaves an empty buffer.
pub end_packet-write_all :
    (os : Os) (s : UdpSocket) (w : os.World) (host : List ℕ) (port h addr : ℕ)
    (chunks : List (List ℕ))
    → s.handle ≡ some h
    → (resolve_ipv4 os w host).0 ≡ some addr
    → let r = os.sendto (resolve_ipv4 os w host).1 h (concat chunks) addr port in
      end_packet os (write_all (begin_packet s host port).1 chunks) w
      ≡ (r.0, record s { pending_host = host; pending_port = port; send_buffer = [] }, r.1)
unfolding begin_packet
end_packet-write_all os s w host port h addr chunks e f =
    rw (write_all_lem (begin_packet s host port).1 chunks)
      (end_packet_at os _ w h e ∙ send_to_lem os _ h addr (resolve_ipv4 os w host) f)
