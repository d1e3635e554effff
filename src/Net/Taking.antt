-- ===== src/Net/Taking.antt =====
-- The operations of net.cpp that open or close descriptors, as exchanges of the one that the
-- object holds.
use bit_magic_zi_modem.Base.{
  ℕ, ◌≡◌, refl, sym, ap, ◌∙◌, ◌⊎◌, inl, inr, Bool, true, false, Option, none, some, List, ◌==◌,
  if◌then◌else◌, Bool-cases,
}
use bit_magic_zi_modem.Net.Os.{Os, DescriptorLaws, stream, datagram}
use bit_magic_zi_modem.Net.Ownership.{holds, holds_iff, Takes}
use bit_magic_zi_modem.Net.Tcp.{
  TcpSocket, resolve_by, resolve_ipv4, connect_resolved, connect_to, connect_done,
}
use bit_magic_zi_modem.Net.Tcp as Tcp
use bit_magic_zi_modem.Net.Tcp.Descriptors.{connect-Owns, close_fresh, resolve-keeps}
use bit_magic_zi_modem.Net.Listener.{TcpListener, listening, bound, listen_on, accepted, accept_if}
use bit_magic_zi_modem.Net.Listener as Listener
use bit_magic_zi_modem.Net.Udp.{UdpSocket, begin_on}
use bit_magic_zi_modem.Net.Udp as Udp

module _ (os : Os) (laws : DescriptorLaws os) where
  open laws use {
    is_open, socket_fresh, socket_opens, socket_fails, close_closes, bind_keeps, non_blocking_keeps,
    accept_fresh, accept_opens, accept_fails,
  }

  abbrev pub drop_handle : Option ℕ → os.World → os.World
  drop_handle o w = elim o [ none ↦ w | some h ↦ os.close w h ]

  drop_lem :
      (o : Option ℕ) (w : os.World) (j : ℕ)
      → is_open (drop_handle o w) j ≡ (if holds o j then false else is_open w j)
  drop_lem none w j = refl
  drop_lem (some h) w j = close_closes w h j

  -- What is closed once the old descriptor is dropped is the old one, or was closed before.
  dropped_fresh :
      (o : Option ℕ) (w : os.World) (h : ℕ)
      → is_open (drop_handle o w) h ≡ false
      → (o ≡ some h) ⊎ (is_open w h ≡ false)
  dropped_fresh o w h e = elim (Bool-cases (holds o h)) [
    | inl x ↦ inl (holds_iff o h x)
    | inr x ↦ inr (sym (drop_lem o w h ∙ rw x refl) ∙ e)
  ]

  -- An object that holds nothing, or drops what it holds.
  pub drop-Takes : (o : Option ℕ) (w : os.World) → Takes os laws w o (drop_handle o w) none
  drop-Takes o w = record { opens = λ j. drop_lem o w j; fresh = λ h e. cc }

  -- An object that drops what it holds and then opens a descriptor, or fails to.
  drop_open-Takes :
      (o o' : Option ℕ) (w w' : os.World)
      → ((j : ℕ) → is_open w' j ≡ (if holds o' j then true else is_open (drop_handle o w) j))
      → ((h : ℕ) → o' ≡ some h → is_open (drop_handle o w) h ≡ false)
      → Takes os laws w o w' o'
  drop_open-Takes o o' w w' k f = record {
    opens = λ j. k j ∙ ap (λ b. if holds o' j then true else b) (drop_lem o w j);
    fresh = λ h e. dropped_fresh o w h (f h e);
  }

  connect_done-fresh :
      (w : os.World) (h : ℕ) (r : Bool × os.World) (k : ℕ)
      → is_open w h ≡ false
      → (connect_done os h r).1.handle ≡ some k
      → is_open w k ≡ false
  connect_done-fresh w h (true, u) k f e = ap (is_open w) (same e) ∙ f
    where
      same : some h ≡ some k → k ≡ h
      same e = cc
  connect_done-fresh w h (false, u) k f e = cc

  connect_to-fresh :
      (w : os.World) (addr port k : ℕ)
      → (connect_to os addr port (os.socket w stream)).1.handle ≡ some k
      → is_open w k ≡ false
  connect_to-fresh w addr port k = go (os.socket w stream).0 refl
    where
      u : os.World
      u = (os.socket w stream).1

      go :
          (o : Option ℕ)
          → (os.socket w stream).0 ≡ o
          → (connect_to os addr port (o, u)).1.handle ≡ some k
          → is_open w k ≡ false
      go none e f = cc
      go (some h) e f =
          connect_done-fresh w h (os.connect u h addr port) k (socket_fresh w stream h e) f

  connect_resolved-fresh :
      (port k : ℕ) (r : Option ℕ × os.World)
      → (connect_resolved os port r).1.handle ≡ some k
      → is_open r.1 k ≡ false
  connect_resolved-fresh port k (none, w) e = cc
  connect_resolved-fresh port k (some addr, w) e = connect_to-fresh w addr port k e

  pub connect-Takes :
      (s : TcpSocket) (w : os.World) (host : List ℕ) (port : ℕ)
      → let (b, s', w') = Tcp.connect os s w host port in Takes os laws w s.handle w' s'.handle
  unfolding Tcp.connect Tcp.close
  connect-Takes s w host port = record {
    opens = connect-Owns os laws s w host port;
    fresh = λ h e. dropped_fresh s.handle w h (
        sym (resolve-keeps os laws (Tcp.close os s w).1 host h)
        ∙ connect_resolved-fresh port h (resolve_ipv4 os (Tcp.close os s w).1 host) e);
  }

  one_of_two :
      (w : os.World) (h k : ℕ) → is_open w h ≡ false → some h ≡ some k → is_open w k ≡ false
  one_of_two w h k f e = ap (is_open w) (same e) ∙ f
    where
      same : some h ≡ some k → k ≡ h
      same e = cc

  listening-fresh :
      (w : os.World) (h : ℕ) (r : Bool × os.World) (k : ℕ)
      → is_open w h ≡ false
      → (listening os h r).1.handle ≡ some k
      → is_open w k ≡ false
  listening-fresh w h (true, u) k f e = one_of_two w h k f e
  listening-fresh w h (false, u) k f e = cc

  bound-fresh :
      (w : os.World) (h : ℕ) (r : Bool × os.World) (k : ℕ)
      → is_open w h ≡ false
      → (Listener.bound os h r).1.handle ≡ some k
      → is_open w k ≡ false
  bound-fresh w h (true, u) k f e = listening-fresh w h (os.listen u h 8) k f e
  bound-fresh w h (false, u) k f e = cc

  listen_on-fresh :
      (w : os.World) (port k : ℕ)
      → (listen_on os port (os.socket w stream)).1.handle ≡ some k
      → is_open w k ≡ false
  listen_on-fresh w port k = go (os.socket w stream).0 refl
    where
      u : os.World
      u = (os.socket w stream).1

      go :
          (o : Option ℕ)
          → (os.socket w stream).0 ≡ o
          → (listen_on os port (o, u)).1.handle ≡ some k
          → is_open w k ≡ false
      go none e f = cc
      go (some h) e f =
          bound-fresh w h (os.bind (os.set_reuse_address u h) h port) k (socket_fresh w stream h e)
            f

  pub listen-Takes :
      (l : TcpListener) (w : os.World) (port : ℕ)
      → let (b, l', w') = Listener.listen os l w port in Takes os laws w l.handle w' l'.handle
  unfolding Listener.listen Listener.close
  listen-Takes l w port = record {
    opens = Listener.listen-Owns os laws l w port;
    fresh = λ h e. dropped_fresh l.handle w h (listen_on-fresh (drop_handle l.handle w) port h e);
  }

  accepted-Takes :
      (w : os.World) (l : ℕ)
      → let (s, w') = accepted os (os.accept w l) in Takes os laws w none w' s.handle
  accepted-Takes w l = go (os.accept w l).0 refl
    where
      u : os.World
      u = (os.accept w l).1

      go :
          (o : Option ℕ)
          → (os.accept w l).0 ≡ o
          → let (s, w') = accepted os (o, u) in Takes os laws w none w' s.handle
      go none e = record { opens = λ j. accept_fails w l j e; fresh = λ h f. cc }
      go (some h) e = record {
        opens = λ j. non_blocking_keeps u h j ∙ accept_opens w l h j e;
        fresh = λ k f. inr (one_of_two w h k (accept_fresh w l h e) f);
      }

  pub accept-Takes :
      (l : TcpListener) (w : os.World)
      → let (s, w') = Listener.accept os l w in Takes os laws w none w' s.handle
  unfolding Listener.accept
  accept-Takes l w = go (Listener.has_pending_client os l w) l.handle
    where
      go :
          (b : Bool) (o : Option ℕ)
          → let (s, w') = accept_if os b o w in Takes os laws w none w' s.handle
      go false o = drop-Takes none w
      go true none = drop-Takes none w
      go true (some h) = accepted-Takes w h

  -- The descriptors behind a begin that starts at a socket without one.
  abbrev Begun : os.World → Bool × UdpSocket × os.World → Type 0
  Begun w r =
      ((j : ℕ) → is_open r.2 j ≡ (if holds r.1.handle j then true else is_open w j))
      × ((k : ℕ) → r.1.handle ≡ some k → is_open w k ≡ false)

  udp_bound-Begun :
      (s : UdpSocket) (w : os.World) (h : ℕ) (r : Bool × os.World)
      → s.handle ≡ none
      → is_open w h ≡ false
      → ((j : ℕ) → is_open r.1 j ≡ (if j == h then true else is_open w j))
      → Begun w (Udp.bound os s h r)
  udp_bound-Begun s w h (true, u) n f k =
      ((λ j. non_blocking_keeps u h j ∙ k j), (λ i e. one_of_two w h i f e))
  udp_bound-Begun s w h (false, u) n f k = (
    (λ j. close_fresh os laws w u h f k j ∙ rw n refl),
    (λ i e. absurd (no_handle i (sym n ∙ e))),
  )
    where
      no_handle : (i : ℕ) → none ≡ some i → ⊥
      no_handle i e = cc

  begin_on-Begun :
      (s : UdpSocket) (w : os.World) (port : ℕ)
      → s.handle ≡ none
      → Begun w (begin_on os s port (os.socket w datagram))
  begin_on-Begun s w port n = go (os.socket w datagram).0 refl
    where
      u : os.World
      u = (os.socket w datagram).1

      no_handle : (i : ℕ) → none ≡ some i → ⊥
      no_handle i e = cc

      go : (o : Option ℕ) → (os.socket w datagram).0 ≡ o → Begun w (begin_on os s port (o, u))
      go none e = (
        (λ j. socket_fails w datagram j e ∙ rw n refl),
        (λ i f. absurd (no_handle i (sym n ∙ f))),
      )
      go (some h) e =
          udp_bound-Begun s w h (os.bind u h port) n (socket_fresh w datagram h e)
            (λ j. bind_keeps u h port j ∙ socket_opens w datagram h j e)

  pub udp_begin-Takes :
      (s : UdpSocket) (w : os.World) (port : ℕ)
      → let (b, s', w') = Udp.begin os s w port in Takes os laws w s.handle w' s'.handle
  unfolding Udp.begin Udp.close
  udp_begin-Takes s w port =
      let r = begin_on-Begun (Udp.close os s w).0 (drop_handle s.handle w) port refl in
      drop_open-Takes s.handle _ w _ r.0 r.1
