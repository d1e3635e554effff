-- ===== src/Sockets/Separate.antt =====
-- The descriptors that are open are those held, each by one object, over any history.
use bit_magic_zi_modem.Base.{
  ℕ, ◌≡◌, refl, sym, ap, subst, ◌∙◌, ◌⊎◌, inl, inr, Option, ◌==◌, ==_iff, Bool-cases,
}
use bit_magic_zi_modem.WString.{or_empty, until_nul}
use bit_magic_zi_modem.IpAddress.{to_string}
use bit_magic_zi_modem.Net.Os.{Os, DescriptorLaws}
use bit_magic_zi_modem.Net.Ownership.{Takes, IsSeparate, take-IsSeparate, keep-IsSeparate}
use bit_magic_zi_modem.Net.Taking.{
  drop-Takes, connect-Takes, listen-Takes, accept-Takes, udp_begin-Takes,
}
use bit_magic_zi_modem.Net.Keeping.{
  Keeps, read-Keeps, peek_byte-Keeps, write-keeps, set_no_delay-keeps, end_packet-Keeps,
  parse_packet-Keeps, udp_read-handle,
}
use bit_magic_zi_modem.Net.Tcp.{TcpSocket, unconnected}
use bit_magic_zi_modem.Net.Tcp as Tcp
use bit_magic_zi_modem.Net.Listener as Listener
use bit_magic_zi_modem.Net.Udp.{UdpSocket}
use bit_magic_zi_modem.Net.Udp as Udp
use bit_magic_zi_modem.WifiClient.{Store, put}
use bit_magic_zi_modem.WifiClient as Client
use bit_magic_zi_modem.WifiServer.{WifiServer}
use bit_magic_zi_modem.WifiServer as Server
use bit_magic_zi_modem.WifiUdp
use bit_magic_zi_modem.Sockets.{
  Slot, client, server, datagrams, update, Sockets, own, with_clients, with_server, with_udp, Step,
  makes, connects, connects_ip, reads_byte, reads, peeks, writes, sets_no_delay, stops, listens,
  stops_listening, accepts, binds, starts_packet, adds_to_packet, sends_packet, takes_packet,
  reads_packet, Reach, here, next,
}

module _ (os : Os) (laws : DescriptorLaws os) where
  open laws use {is_open}

  -- Every descriptor that an object holds is open, no two objects hold the same, and every
  -- descriptor that is open is held.
  abbrev pub IsValid : Sockets os → Type 0
  IsValid s = IsSeparate os laws (own os s) s.world

  update_self {ℓ} : {A : Type ℓ} (f : ℕ → A) (i : ℕ) (a : A) → update f i a i ≡ a
  update_self f i a = rw ((==_iff i i).1 refl)

  -- A family of objects with one exchanged: the new one, or the old ones.
  update_cases {ℓ} :
      {A : Type ℓ} (f : ℕ → A) (i : ℕ) (a : A) (j : ℕ) → (j ≡ i) ⊎ (update f i a j ≡ f j)
  update_cases f i a j = elim (Bool-cases (j == i)) [
    | inl e ↦ inl ((==_iff j i).0 e)
    | inr e ↦ inr (rw e)
  ]

  -- A step that changes one object: what the others hold, and what it holds itself.
  abbrev pub Changes : Sockets os → Slot → Option ℕ → Sockets os → Type 0
  Changes s a o t = ((b : Slot) → (b ≡ a) ⊎ (own os t b ≡ own os s b)) × (own os t a ≡ o)

  take_at :
      (s t : Sockets os) (a : Slot) (o : Option ℕ)
      → Changes s a o t
      → Takes os laws s.world (own os s a) t.world o
      → IsValid s
      → IsValid t
  take_at s t a o c k v =
      take-IsSeparate os laws (own os s) (own os t) s.world t.world a c.0
        (subst (λ x. Takes os laws s.world (own os s a) t.world x) (sym c.1) k) v

  keep_at :
      (s t : Sockets os) (a : Slot) (o : Option ℕ)
      → Changes s a o t
      → Keeps os laws s.world (own os s a) t.world o
      → IsValid s
      → IsValid t
  keep_at s t a o c k v =
      keep-IsSeparate os laws (own os s) (own os t) s.world t.world
        (λ b. elim (c.0 b) [
          | inl e ↦ ap (own os t) e ∙ c.1 ∙ k.1 ∙ ap (own os s) (sym e)
          | inr e ↦ e
        ])
        k.0 v

  client-Changes :
      (s : Sockets os) (c : ℕ) (x : TcpSocket) (w : os.World)
      → Changes s (client c) x.handle (with_clients os s (put s.clients c x, w))
  client-Changes s c x w = (others, ap (λ (y : TcpSocket). y.handle) (update_self s.clients c x))
    where
      others :
          (b : Slot)
          → (b ≡ client c) ⊎ (own os (with_clients os s (put s.clients c x, w)) b ≡ own os s b)
      others (client j) = elim (update_cases s.clients c x j) [
        | inl e ↦ inl (ap client e)
        | inr e ↦ inr (ap (λ (y : TcpSocket). y.handle) e)
      ]
      others (server l) = inr refl
      others (datagrams u) = inr refl

  server-Changes :
      (s : Sockets os) (l : ℕ) (x : WifiServer) (w : os.World)
      → Changes s (server l) x.listener.handle (with_server os s l (x, w))
  server-Changes s l x w =
      (others, ap (λ (y : WifiServer). y.listener.handle) (update_self s.servers l x))
    where
      others : (b : Slot) → (b ≡ server l) ⊎ (own os (with_server os s l (x, w)) b ≡ own os s b)
      others (client c) = inr refl
      others (server j) = elim (update_cases s.servers l x j) [
        | inl e ↦ inl (ap server e)
        | inr e ↦ inr (ap (λ (y : WifiServer). y.listener.handle) e)
      ]
      others (datagrams u) = inr refl

  udp-Changes :
      (s : Sockets os) (u : ℕ) (x : UdpSocket) (w : os.World)
      → Changes s (datagrams u) x.handle (with_udp os s u x w)
  udp-Changes s u x w = (others, ap (λ (y : UdpSocket). y.handle) (update_self s.udps u x))
    where
      others : (b : Slot) → (b ≡ datagrams u) ⊎ (own os (with_udp os s u x w) b ≡ own os s b)
      others (client c) = inr refl
      others (server l) = inr refl
      others (datagrams j) = elim (update_cases s.udps u x j) [
        | inl e ↦ inl (ap datagrams e)
        | inr e ↦ inr (ap (λ (y : UdpSocket). y.handle) e)
      ]

  client-Takes :
      (s : Sockets os) (c : ℕ) (x : TcpSocket) (w : os.World)
      → Takes os laws s.world (s.clients c).handle w x.handle
      → IsValid s
      → IsValid (with_clients os s (put s.clients c x, w))
  client-Takes s c x w =
      take_at s (with_clients os s (put s.clients c x, w)) (client c) x.handle
        (client-Changes s c x w)

  client-Keeps :
      (s : Sockets os) (c : ℕ) (x : TcpSocket) (w : os.World)
      → Keeps os laws s.world (s.clients c).handle w x.handle
      → IsValid s
      → IsValid (with_clients os s (put s.clients c x, w))
  client-Keeps s c x w =
      keep_at s (with_clients os s (put s.clients c x, w)) (client c) x.handle
        (client-Changes s c x w)

  server-Takes :
      (s : Sockets os) (l : ℕ) (x : WifiServer) (w : os.World)
      → Takes os laws s.world (s.servers l).listener.handle w x.listener.handle
      → IsValid s
      → IsValid (with_server os s l (x, w))
  server-Takes s l x w =
      take_at s (with_server os s l (x, w)) (server l) x.listener.handle (server-Changes s l x w)

  udp-Takes :
      (s : Sockets os) (u : ℕ) (x : UdpSocket) (w : os.World)
      → Takes os laws s.world (s.udps u).handle w x.handle
      → IsValid s
      → IsValid (with_udp os s u x w)
  udp-Takes s u x w = take_at s (with_udp os s u x w) (datagrams u) x.handle (udp-Changes s u x w)

  udp-Keeps :
      (s : Sockets os) (u : ℕ) (x : UdpSocket) (w : os.World)
      → Keeps os laws s.world (s.udps u).handle w x.handle
      → IsValid s
      → IsValid (with_udp os s u x w)
  udp-Keeps s u x w = keep_at s (with_udp os s u x w) (datagrams u) x.handle (udp-Changes s u x w)

  -- A change of the world alone.
  world_keeps :
      (s : Sockets os) (w : os.World)
      → ((j : ℕ) → is_open w j ≡ is_open s.world j)
      → IsValid s
      → IsValid (with_clients os s (s.clients, w))
  world_keeps s w k v =
      keep-IsSeparate os laws (own os s) (own os (with_clients os s (s.clients, w))) s.world w same
        k v
    where
      same : (b : Slot) → own os (with_clients os s (s.clients, w)) b ≡ own os s b
      same (client c) = refl
      same (server l) = refl
      same (datagrams u) = refl

  -- One operation of an object keeps the sockets valid, whatever it answers.
  pub Step-IsValid : {s t : Sockets os} → Step os s t → IsValid s → IsValid t
  unfolding Client.make Client.connect Client.connect_ip Client.read_byte Client.read Client.peek
      Client.write Client.set_no_delay Client.stop Server.begin Server.stop Server.available
      Client.make_from WifiUdp.begin WifiUdp.begin_packet WifiUdp.write WifiUdp.end_packet
      WifiUdp.parse_packet WifiUdp.read Udp.begin_packet Udp.write Tcp.close Listener.close
  Step-IsValid (makes s c e) v = client-Keeps s c unconnected s.world ((λ j. refl), sym e) v
  Step-IsValid (connects s c host port) v =
      let r = Tcp.connect os (s.clients c) s.world (or_empty host) port in
      client-Takes s c r.1 r.2 (connect-Takes os laws (s.clients c) s.world (or_empty host) port) v
  Step-IsValid (connects_ip s c ip port) v =
      let host = until_nul (to_string ip).value in
      let r = Tcp.connect os (s.clients c) s.world host port in
      client-Takes s c r.1 r.2 (connect-Takes os laws (s.clients c) s.world host port) v
  Step-IsValid (reads_byte s c) v =
      let r = Tcp.read os (s.clients c) s.world 1 in
      client-Keeps s c r.1 r.2 (read-Keeps os laws (s.clients c) s.world 1) v
  Step-IsValid (reads s c size) v =
      let r = Tcp.read os (s.clients c) s.world size in
      client-Keeps s c r.1 r.2 (read-Keeps os laws (s.clients c) s.world size) v
  Step-IsValid (peeks s c) v =
      let r = Tcp.peek_byte os (s.clients c) s.world in
      client-Keeps s c r.1 r.2 (peek_byte-Keeps os laws (s.clients c) s.world) v
  Step-IsValid (writes s c buf) v =
      world_keeps s (Tcp.write os (s.clients c) s.world buf).1
        (write-keeps os laws (s.clients c) s.world buf) v
  Step-IsValid (sets_no_delay s c nodelay) v =
      world_keeps s (Tcp.set_no_delay os (s.clients c) s.world nodelay)
        (set_no_delay-keeps os laws (s.clients c) s.world nodelay) v
  Step-IsValid (stops s c) v =
      let r = Tcp.close os (s.clients c) s.world in
      client-Takes s c r.0 r.1 (drop-Takes os laws (s.clients c).handle s.world) v
  Step-IsValid (listens s l) v =
      let x = s.servers l in
      let r = Listener.listen os x.listener s.world x.port in
      server-Takes s l (record x { listener = r.1 }) r.2
        (listen-Takes os laws x.listener s.world x.port) v
  Step-IsValid (stops_listening s l) v =
      let x = s.servers l in
      let r = Listener.close os x.listener s.world in
      server-Takes s l (record x { listener = r.0 }) r.1
        (drop-Takes os laws x.listener.handle s.world) v
  Step-IsValid (accepts s l c e) v =
      let x = (s.servers l).listener in
      let r = Listener.accept os x s.world in
      client-Takes s c r.0 r.1
        (subst (λ o. Takes os laws s.world o r.1 r.0.handle) (sym e)
          (accept-Takes os laws x s.world))
        v
  Step-IsValid (binds s u port) v =
      let r = Udp.begin os (s.udps u) s.world port in
      udp-Takes s u r.1 r.2 (udp_begin-Takes os laws (s.udps u) s.world port) v
  Step-IsValid (starts_packet s u ip port) v =
      udp-Keeps s u (WifiUdp.begin_packet (s.udps u) ip port).1 s.world ((λ j. refl), refl) v
  Step-IsValid (adds_to_packet s u buf) v =
      udp-Keeps s u (WifiUdp.write (s.udps u) buf).1 s.world ((λ j. refl), refl) v
  Step-IsValid (sends_packet s u) v =
      let r = Udp.end_packet os (s.udps u) s.world in
      udp-Keeps s u r.1 r.2 (end_packet-Keeps os laws (s.udps u) s.world) v
  Step-IsValid (takes_packet s u) v =
      let r = Udp.parse_packet os (s.udps u) s.world in
      udp-Keeps s u r.1 r.2 (parse_packet-Keeps os laws (s.udps u) s.world) v
  Step-IsValid (reads_packet s u len) v =
      udp-Keeps s u (Udp.read (s.udps u) len).2 s.world
        ((λ j. refl), udp_read-handle os laws (s.udps u) len) v

  -- Over socket calls with these laws, in every state that can be reached from one where the open
  -- descriptors are those held, each by one object, that is so again: no operation of one object
  -- closes a descriptor that another holds, and none leaves a descriptor open that nobody holds,
  -- also where it fails half way.
  pub Reach-IsValid : {s t : Sockets os} → IsValid s → Reach os s t → IsValid t
  Reach-IsValid v here = v
  Reach-IsValid v (next r st) = Step-IsValid st (Reach-IsValid v r)
