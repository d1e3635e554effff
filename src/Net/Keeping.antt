-- ===== src/Net/Keeping.antt =====
-- The operations of net.cpp that only use a descriptor: the object holds the same one behind
-- them, and none is opened or closed.
use bit_magic_zi_modem.Base.{
  ℕ, ◌-◌, ◌≡◌, refl, ◌∙◌, Bool, false, Option, none, some, List, [], ◌∷◌, ◌==◌, length,
  if◌then◌else◌, Bool-cases, inl, inr,
}
use bit_magic_zi_modem.Base.Int.{ℤ, pos, ◌==ℤ◌}
use bit_magic_zi_modem.Net.Os.{Os, DescriptorLaws, Received}
use bit_magic_zi_modem.Net.Tcp.{TcpSocket, Read, read_at, read_more, peek_done, resolve_ipv4}
use bit_magic_zi_modem.Net.Tcp as Tcp
use bit_magic_zi_modem.Net.Tcp.Descriptors.{resolve-keeps}
use bit_magic_zi_modem.Net.Udp.{UdpSocket, parse_done, parsed, send_to}
use bit_magic_zi_modem.Net.Udp as Udp

module _ (os : Os) (laws : DescriptorLaws os) where
  open laws use {is_open, recv_keeps, send_keeps, no_delay_keeps, sendto_keeps, recvfrom_keeps}

  -- The same descriptors are open, and the object has the handle it had.
  abbrev pub Keeps : os.World → Option ℕ → os.World → Option ℕ → Type 0
  Keeps w o w' o' = ((j : ℕ) → is_open w' j ≡ is_open w j) × (o' ≡ o)

  read_at-Keeps :
      (h : ℕ) (p : Option ℕ) (w : os.World) (len : ℕ)
      → let (r, s, w') = read_at os h p w len in Keeps w (some h) w' s.handle
  read_at-Keeps h none w len = ((λ j. recv_keeps w h len j), refl)
  read_at-Keeps h (some b) w len = elim (Bool-cases (len == 1)) [
    | inl e ↦ rw e ((λ j. refl), refl)
    | inr e ↦ rw e ((λ j. recv_keeps w h (len - 1) j), refl)
  ]

  pub read-Keeps :
      (s : TcpSocket) (w : os.World) (len : ℕ)
      → let (r, s', w') = Tcp.read os s w len in Keeps w s.handle w' s'.handle
  unfolding Tcp.read
  read-Keeps s w len = go s.handle refl
    where
      go :
          (o : Option ℕ)
          → s.handle ≡ o
          → let (r, s', w') : Read × TcpSocket × os.World = elim o [
            | none ↦ (Tcp.nothing, s, w)
            | some h ↦ if len == 0 then (Tcp.nothing, s, w) else read_at os h s.peeked w len
          ] in
            Keeps w o w' s'.handle
      go none e = ((λ j. refl), e)
      go (some h) e = elim (Bool-cases (len == 0)) [
        | inl z ↦ rw z ((λ j. refl), e)
        | inr z ↦ rw z (read_at-Keeps h s.peeked w len)
      ]

  peek_done-Keeps :
      (w : os.World) (o : Option ℕ) (r : Read × TcpSocket × os.World)
      → Keeps w o r.2 r.1.handle
      → let (n, s', w') = peek_done os r in Keeps w o w' s'.handle
  peek_done-Keeps w o (r, s, w') k = elim (Bool-cases (r.code ==ℤ pos 1)) [
    | inl e ↦ rw e k
    | inr e ↦ rw e k
  ]

  pub peek_byte-Keeps :
      (s : TcpSocket) (w : os.World)
      → let (n, s', w') = Tcp.peek_byte os s w in Keeps w s.handle w' s'.handle
  unfolding Tcp.peek_byte
  peek_byte-Keeps s w = go s.peeked
    where
      go :
          (p : Option ℕ)
          → let (n, s', w') : ℤ × TcpSocket × os.World = elim p [
            | some b ↦ (pos b, s, w)
            | none ↦ peek_done os (Tcp.read os s w 1)
          ] in
            Keeps w s.handle w' s'.handle
      go none = peek_done-Keeps w s.handle (Tcp.read os s w 1) (read-Keeps s w 1)
      go (some b) = ((λ j. refl), refl)

  sent-keeps : (r : Option ℕ × os.World) (j : ℕ) → is_open (Tcp.sent os r).1 j ≡ is_open r.1 j
  sent-keeps (none, w) j = refl
  sent-keeps (some n, w) j = refl

  pub write-keeps :
      (s : TcpSocket) (w : os.World) (buf : List ℕ) (j : ℕ)
      → is_open (Tcp.write os s w buf).1 j ≡ is_open w j
  unfolding Tcp.write
  write-keeps s w buf j = go s.handle
    where
      go :
          (o : Option ℕ)
          → let r : ℕ × os.World = elim o [
            | none ↦ (0, w)
            | some h ↦ if length buf == 0 then (0, w) else Tcp.sent os (os.send w h buf)
          ] in
            is_open r.1 j ≡ is_open w j
      go none = refl
      go (some h) = elim (Bool-cases (length buf == 0)) [
        | inl z ↦ rw z refl
        | inr z ↦ rw z (sent-keeps (os.send w h buf) j ∙ send_keeps w h buf j)
      ]

  pub set_no_delay-keeps :
      (s : TcpSocket) (w : os.World) (enable : Bool) (j : ℕ)
      → is_open (Tcp.set_no_delay os s w enable) j ≡ is_open w j
  unfolding Tcp.set_no_delay
  set_no_delay-keeps s w enable j = go s.handle
    where
      go :
          (o : Option ℕ)
          → is_open (elim o [ none ↦ w | some h ↦ os.set_tcp_no_delay w h enable ]) j ≡ is_open w j
      go none = refl
      go (some h) = no_delay_keeps w h enable j

  send_to-Keeps :
      (s : UdpSocket) (h : ℕ) (r : Option ℕ × os.World)
      → let (b, s', w') = send_to os s h r in Keeps r.1 s.handle w' s'.handle
  send_to-Keeps s h (none, w) = ((λ j. refl), refl)
  send_to-Keeps s h (some addr, w) =
      ((λ j. sendto_keeps w h s.send_buffer addr s.pending_port j), refl)

  pub end_packet-Keeps :
      (s : UdpSocket) (w : os.World)
      → let (b, s', w') = Udp.end_packet os s w in Keeps w s.handle w' s'.handle
  unfolding Udp.end_packet
  end_packet-Keeps s w = go s.handle
    where
      go :
          (o : Option ℕ)
          → let (b, s', w') : Bool × UdpSocket × os.World = elim o [
            | none ↦ (false, s, w)
            | some h ↦ send_to os s h (resolve_ipv4 os w s.pending_host)
          ] in
            Keeps w s.handle w' s'.handle
      go none = ((λ j. refl), refl)
      go (some h) =
          let k = send_to-Keeps s h (resolve_ipv4 os w s.pending_host) in
          ((λ j. k.0 j ∙ resolve-keeps os laws w s.pending_host j), k.1)

  parsed-handle : (s : UdpSocket) (r : Received) → (parsed s r).1.handle ≡ s.handle
  parsed-handle s (Received.bytes []) = refl
  parsed-handle s (Received.bytes (b ∷ bs)) = refl
  parsed-handle s Received.orderly_close = refl
  parsed-handle s Received.would_block = refl
  parsed-handle s Received.failed = refl

  pub parse_packet-Keeps :
      (s : UdpSocket) (w : os.World)
      → let (n, s', w') = Udp.parse_packet os s w in Keeps w s.handle w' s'.handle
  unfolding Udp.parse_packet
  parse_packet-Keeps s w = go s.handle
    where
      go :
          (o : Option ℕ)
          → let (n, s', w') : ℤ × UdpSocket × os.World = elim o [
            | none ↦ (pos 0, s, w)
            | some h ↦ parse_done os s (os.recvfrom w h 2048)
          ] in
            Keeps w s.handle w' s'.handle
      go none = ((λ j. refl), refl)
      go (some h) = ((λ j. recvfrom_keeps w h 2048 j), parsed-handle s (os.recvfrom w h 2048).0)

  pub udp_read-handle : (s : UdpSocket) (len : ℕ) → (Udp.read s len).2.handle ≡ s.handle
  unfolding Udp.read
  udp_read-handle s len = elim (Bool-cases (Udp.count s len == 0)) [
    | inl z ↦ rw z refl
    | inr z ↦ rw z refl
  ]
