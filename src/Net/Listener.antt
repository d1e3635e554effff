-- ===== src/Net/Listener.antt =====
-- TcpListener of net.cpp.
use bit_magic_zi_modem.Base.{
  ℕ, ◌≡◌, refl, ap, ◌∙◌, Bool, true, false, Option, none, some, ◌==◌, if◌then◌else◌,
}
use bit_magic_zi_modem.Net.Os.{Os, DescriptorLaws, stream}
use bit_magic_zi_modem.Net.Tcp.{TcpSocket, unconnected, adopt}
use bit_magic_zi_modem.Net.Tcp.Descriptors.{close_fresh}
use bit_magic_zi_modem.Net.Ownership.{holds}

-- `handle_`, `none` for kInvalid.
pub record TcpListener : Type 0 where
  pub handle : Option ℕ

abbrev pub closed : TcpListener
closed = record { handle = none }

module _ (os : Os) where
  unfoldable pub close : TcpListener → os.World → TcpListener × os.World
  close l w = (closed, elim l.handle [ none ↦ w | some h ↦ os.close w h ])

  -- The destructor.
  unfoldable pub destruct : TcpListener → os.World → os.World
  unfolding close
  destruct l w = (close l w).1

  -- Behind `::listen`, behind `bind`, and behind `socket`.
  abbrev pub listening : ℕ → Bool × os.World → Bool × TcpListener × os.World
  listening h (true, w) = (true, record { handle = some h }, os.set_non_blocking w h)
  listening h (false, w) = (false, closed, os.close w h)

  abbrev pub bound : ℕ → Bool × os.World → Bool × TcpListener × os.World
  bound h (true, w) = listening h (os.listen w h 8)
  bound h (false, w) = (false, closed, os.close w h)

  abbrev pub listen_on : ℕ → Option ℕ × os.World → Bool × TcpListener × os.World
  listen_on port (none, w) = (false, closed, w)
  listen_on port (some h, w) = bound h (os.bind (os.set_reuse_address w h) h port)

  unfoldable pub listen : TcpListener → os.World → ℕ → Bool × TcpListener × os.World
  unfolding close
  listen l w port = listen_on port (os.socket (close l w).1 stream)

  unfoldable pub has_pending_client : TcpListener → os.World → Bool
  has_pending_client l w = elim l.handle [ none ↦ false | some h ↦ os.select_readable w h ]

  abbrev pub accepted : Option ℕ × os.World → TcpSocket × os.World
  accepted (none, w) = (unconnected, w)
  accepted (some s, w) = (adopt (some s), os.set_non_blocking w s)

  -- Without a handle has_pending_client is false, so the code is out before it calls accept.
  abbrev pub accept_if : Bool → Option ℕ → os.World → TcpSocket × os.World
  accept_if false o w = (unconnected, w)
  accept_if true none w = (unconnected, w)
  accept_if true (some h) w = accepted (os.accept w h)

  unfoldable pub accept : TcpListener → os.World → TcpSocket × os.World
  unfolding has_pending_client
  accept l w = accept_if (has_pending_client l w) l.handle w

module _ (os : Os) (laws : DescriptorLaws os) where
  open laws use {
    is_open, socket_fresh, socket_opens, socket_fails, close_closes, bind_keeps, listen_keeps,
    non_blocking_keeps, reuse_keeps,
  }

  abbrev Opens : os.World → Bool × TcpListener × os.World → Type 0
  Opens w (b, l, w') = (j : ℕ) → is_open w' j ≡ (if holds l.handle j then true else is_open w j)

  listening-Opens :
      (w : os.World) (h : ℕ) (r : Bool × os.World)
      → is_open w h ≡ false
      → ((j : ℕ) → is_open r.1 j ≡ (if j == h then true else is_open w j))
      → Opens w (listening os h r)
  listening-Opens w h (true, u) f k j = non_blocking_keeps u h j ∙ k j
  listening-Opens w h (false, u) f k j = close_fresh os laws w u h f k j

  bound-Opens :
      (w : os.World) (h : ℕ) (r : Bool × os.World)
      → is_open w h ≡ false
      → ((j : ℕ) → is_open r.1 j ≡ (if j == h then true else is_open w j))
      → Opens w (bound os h r)
  bound-Opens w h (true, u) f k j =
      listening-Opens w h (os.listen u h 8) f (λ i. listen_keeps u h 8 i ∙ k i) j
  bound-Opens w h (false, u) f k j = close_fresh os laws w u h f k j

  listen_on-Opens : (w : os.World) (port : ℕ) → Opens w (listen_on os port (os.socket w stream))
  listen_on-Opens w port = go (os.socket w stream).0 refl
    where
      u : os.World
      u = (os.socket w stream).1

      go : (o : Option ℕ) → (os.socket w stream).0 ≡ o → Opens w (listen_on os port (o, u))
      go none e = λ j. socket_fails w stream j e
      go (some h) e =
          bound-Opens w h (os.bind (os.set_reuse_address u h) h port) (socket_fresh w stream h e)
            (λ j.
              bind_keeps (os.set_reuse_address u h) h port j
              ∙ reuse_keeps u h j
              ∙ socket_opens w stream h j e)

  close-keeps :
      (o : Option ℕ) (w : os.World) (j : ℕ)
      → is_open (elim o [ none ↦ w | some h ↦ os.close w h ]) j
        ≡ (if holds o j then false else is_open w j)
  close-keeps none w j = refl
  close-keeps (some h) w j = close_closes w h j

  -- Besides the handle of the listener the same descriptors are open as before.
  abbrev pub Owns : os.World → TcpListener → os.World → TcpListener → Type 0
  Owns w l w' l' =
      (j : ℕ)
      → is_open w' j
        ≡ (if holds l'.handle j then true else if holds l.handle j then false else is_open w j)

  -- Over calls with these laws, whether listen succeeds or fails, at any of its steps, the old descriptor of the listener is
  -- closed, the one that it holds behind the call is open, and all others are as they were.
  pub listen-Owns :
      (l : TcpListener) (w : os.World) (port : ℕ)
      → let (b, l', w') = listen os l w port in Owns w l w' l'
  unfolding listen close
  listen-Owns l w port j =
      listen_on-Opens (close os l w).1 port j
      ∙ ap (λ b. if holds (listen os l w port).1.handle j then true else b)
          (close-keeps l.handle w j)
