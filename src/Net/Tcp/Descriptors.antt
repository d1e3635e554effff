-- ===== src/Net/Tcp/Descriptors.antt =====
-- The native handles of TcpSocket: none is leaked, and none is closed twice.
use bit_magic_zi_modem.Base.{
  ℕ, ◌≡◌, refl, ap, ◌∙◌, Bool, true, false, Option, none, some, List, ◌==◌, if◌then◌else◌, arith,
}
use bit_magic_zi_modem.Net.Os.{Os, DescriptorLaws, Kind}
use bit_magic_zi_modem.Net.Os as O
use bit_magic_zi_modem.Net.Ownership.{holds}
use bit_magic_zi_modem.Net.Tcp.{
  TcpSocket, resolve_by, resolve_ipv4, close, connect, connect_resolved, connect_to, connect_done,
}

module _ (os : Os) (laws : DescriptorLaws os) where
  open laws use {
    is_open, socket_fresh, socket_opens, socket_fails, close_closes, getaddrinfo_keeps,
    connect_keeps, non_blocking_keeps,
  }

  -- Besides the handle of the socket the same descriptors are open as before.
  abbrev pub Owns : os.World → TcpSocket → os.World → TcpSocket → Type 0
  Owns w s w' s' =
      (j : ℕ)
      → is_open w' j
        ≡ (if holds s'.handle j then true else if holds s.handle j then false else is_open w j)

  -- Closing a descriptor that was opened in between gives the descriptors of before.
  pub close_fresh :
      (w u : os.World) (h : ℕ)
      → is_open w h ≡ false
      → ((j : ℕ) → is_open u j ≡ (if j == h then true else is_open w j))
      → (j : ℕ) → is_open (os.close u h) j ≡ is_open w j
  close_fresh w u h f k j = close_closes u h j ∙ ground (arith, k j, f, same j)
    where
      same : (j : ℕ) → j ≡ h → is_open w j ≡ is_open w h
      same j e = ap (is_open w) e

  -- close closes the socket's own descriptor and no other, and closes nothing the second time.
  pub close-Owns : (s : TcpSocket) (w : os.World) → Owns w s (close os s w).1 (close os s w).0
  unfolding close
  close-Owns s w j = go s.handle
    where
      go :
          (o : Option ℕ)
          → is_open (elim o [ none ↦ w | some h ↦ os.close w h ]) j
            ≡ (if holds o j then false else is_open w j)
      go none = refl
      go (some h) = close_closes w h j

  pub resolve-keeps :
      (w : os.World) (host : List ℕ) (j : ℕ) → is_open (resolve_ipv4 os w host).1 j ≡ is_open w j
  unfolding resolve_ipv4
  resolve-keeps w host j = go (os.inet_pton host)
    where
      go : (o : Option ℕ) → is_open (resolve_by os w host o).1 j ≡ is_open w j
      go none = getaddrinfo_keeps w host j
      go (some a) = refl

  -- Besides the handle of the returned socket nothing is opened or closed.
  abbrev Opens : os.World → Bool × TcpSocket × os.World → Type 0
  Opens w (b, s, w') = (j : ℕ) → is_open w' j ≡ (if holds s.handle j then true else is_open w j)

  connect_done-Opens :
      (w v : os.World) (h : ℕ) (r : Bool × os.World)
      → is_open w h ≡ false
      → ((j : ℕ) → is_open r.1 j ≡ (if j == h then true else is_open w j))
      → Opens w (connect_done os h r)
  connect_done-Opens w v h (true, u) f k j = non_blocking_keeps u h j ∙ k j
  connect_done-Opens w v h (false, u) f k j = close_fresh w u h f k j

  connect_to-Opens :
      (w : os.World) (addr port : ℕ) → Opens w (connect_to os addr port (os.socket w O.stream))
  connect_to-Opens w addr port = go (os.socket w O.stream).0 refl
    where
      u : os.World
      u = (os.socket w O.stream).1

      go : (o : Option ℕ) → (os.socket w O.stream).0 ≡ o → Opens w (connect_to os addr port (o, u))
      go none e = λ j. socket_fails w O.stream j e
      go (some h) e =
          connect_done-Opens w u h (os.connect u h addr port) (socket_fresh w O.stream h e)
            (λ j. connect_keeps u h addr port j ∙ socket_opens w O.stream h j e)

  connect_resolved-Opens :
      (port : ℕ) (r : Option ℕ × os.World) → Opens r.1 (connect_resolved os port r)
  connect_resolved-Opens port (none, w) = λ j. refl
  connect_resolved-Opens port (some addr, w) = connect_to-Opens w addr port

  -- Over calls with these laws, whether connect succeeds or fails, at any of its steps, the socket's old descriptor is closed,
  -- the one that the socket holds behind it is open, and all others are as they were.
  pub connect-Owns :
      (s : TcpSocket) (w : os.World) (host : List ℕ) (port : ℕ)
      → let (b, s', w') = connect os s w host port in Owns w s w' s'
  unfolding connect
  connect-Owns s w host port j =
      connect_resolved-Opens port (resolve_ipv4 os (close os s w).1 host) j
      ∙ ap (λ b. if holds (connect os s w host port).1.handle j then true else b)
          (resolve-keeps (close os s w).1 host j ∙ close-holds j)
    where
      close-holds :
          (j : ℕ) → is_open (close os s w).1 j ≡ (if holds s.handle j then false else is_open w j)
      close-holds j = close-Owns s w j
