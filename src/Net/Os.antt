-- ===== src/Net/Os.antt =====
-- The operating system's socket calls, which net.cpp uses through the Winsock or POSIX interface:
-- a parameter of the model. A handle is a number, `none` the invalid one. `World` is whatever the
-- calls read and change. What the theorems rely on is stated in the two records of laws.
use bit_magic_zi_modem.Base.{
  ℕ, ◌≤◌, ◌<◌, ◌≡◌, Bool, true, false, Option, none, some, List, ◌++◌, ◌==◌, length, if◌then◌else◌,
}

-- What recv answers: a positive count with its bytes, 0, or an error that is or is not EWOULDBLOCK.
pub data Received : Type 0 where
  bytes : List ℕ → Received
  orderly_close would_block failed : Received

pub data Kind : Type 0 where
  stream datagram : Kind

pub record Os : Type 1 where
  pub World : Type 0
  pub inet_pton : List ℕ → Option ℕ
  pub getaddrinfo : World → List ℕ → Option ℕ × World
  pub socket : World → Kind → Option ℕ × World
  pub connect : World → ℕ → ℕ → ℕ → Bool × World
  pub bind : World → ℕ → ℕ → Bool × World
  pub listen : World → ℕ → ℕ → Bool × World
  pub accept : World → ℕ → Option ℕ × World
  pub select_readable : World → ℕ → Bool
  pub set_non_blocking : World → ℕ → World
  pub set_reuse_address : World → ℕ → World
  pub set_tcp_no_delay : World → ℕ → Bool → World
  pub close : World → ℕ → World
  pub recv : World → ℕ → ℕ → Received × World
  pub recv_peek : World → ℕ → ℕ → Received
  pub send : World → ℕ → List ℕ → Option ℕ × World
  pub fionread : World → ℕ → Option ℕ
  pub local_port_of : World → ℕ → Option ℕ
  pub peer_address_of : World → ℕ → Option ℕ
  pub sendto : World → ℕ → List ℕ → ℕ → ℕ → Bool × World
  pub recvfrom : World → ℕ → ℕ → Received × World

-- Descriptors: socket and accept open one that was closed, close closes the one, and no other
-- call opens or closes any.
pub record DescriptorLaws (os : Os) : Type 0 where
  pub is_open : os.World → ℕ → Bool
  pub socket_fresh :
      (w : os.World) (k : Kind) (h : ℕ) → (os.socket w k).0 ≡ some h → is_open w h ≡ false
  pub socket_opens :
      (w : os.World) (k : Kind) (h j : ℕ)
      → (os.socket w k).0 ≡ some h
      → is_open (os.socket w k).1 j ≡ (if j == h then true else is_open w j)
  pub socket_fails :
      (w : os.World) (k : Kind) (j : ℕ)
      → (os.socket w k).0 ≡ none
      → is_open (os.socket w k).1 j ≡ is_open w j
  pub close_closes :
      (w : os.World) (h j : ℕ) → is_open (os.close w h) j ≡ (if j == h then false else is_open w j)
  pub getaddrinfo_keeps :
      (w : os.World) (host : List ℕ) (j : ℕ) → is_open (os.getaddrinfo w host).1 j ≡ is_open w j
  pub connect_keeps : (w : os.World) (h a p j : ℕ) → is_open (os.connect w h a p).1 j ≡ is_open w j
  pub bind_keeps : (w : os.World) (h p j : ℕ) → is_open (os.bind w h p).1 j ≡ is_open w j
  pub listen_keeps : (w : os.World) (h n j : ℕ) → is_open (os.listen w h n).1 j ≡ is_open w j
  pub non_blocking_keeps :
      (w : os.World) (h j : ℕ) → is_open (os.set_non_blocking w h) j ≡ is_open w j
  pub reuse_keeps : (w : os.World) (h j : ℕ) → is_open (os.set_reuse_address w h) j ≡ is_open w j
  pub accept_fresh : (w : os.World) (l h : ℕ) → (os.accept w l).0 ≡ some h → is_open w h ≡ false
  pub accept_opens :
      (w : os.World) (l h j : ℕ)
      → (os.accept w l).0 ≡ some h
      → is_open (os.accept w l).1 j ≡ (if j == h then true else is_open w j)
  pub accept_fails :
      (w : os.World) (l j : ℕ)
      → (os.accept w l).0 ≡ none
      → is_open (os.accept w l).1 j ≡ is_open w j
  pub recv_keeps : (w : os.World) (h n j : ℕ) → is_open (os.recv w h n).1 j ≡ is_open w j
  pub send_keeps :
      (w : os.World) (h : ℕ) (bs : List ℕ) (j : ℕ) → is_open (os.send w h bs).1 j ≡ is_open w j
  pub no_delay_keeps :
      (w : os.World) (h : ℕ) (b : Bool) (j : ℕ)
      → is_open (os.set_tcp_no_delay w h b) j ≡ is_open w j
  pub sendto_keeps :
      (w : os.World) (h : ℕ) (bs : List ℕ) (a p j : ℕ)
      → is_open (os.sendto w h bs a p).1 j ≡ is_open w j
  pub recvfrom_keeps : (w : os.World) (h n j : ℕ) → is_open (os.recvfrom w h n).1 j ≡ is_open w j

-- Streams: each connection has a sequence of bytes to come, and recv hands out some from its
-- front, at least one and at most as many as asked for, or leaves it as it is.
pub record StreamLaws (os : Os) : Type 0 where
  pub to_come : os.World → ℕ → List ℕ
  pub recv_some :
      (w : os.World) (h n : ℕ) (bs : List ℕ)
      → (os.recv w h n).0 ≡ bytes bs
      → (0 < length bs) × (length bs ≤ n) × (to_come w h ≡ bs ++ to_come (os.recv w h n).1 h)
  pub recv_closed :
      (w : os.World) (h n : ℕ)
      → (os.recv w h n).0 ≡ orderly_close
      → to_come (os.recv w h n).1 h ≡ to_come w h
  pub recv_would_block :
      (w : os.World) (h n : ℕ)
      → (os.recv w h n).0 ≡ would_block
      → to_come (os.recv w h n).1 h ≡ to_come w h
  pub recv_failed :
      (w : os.World) (h n : ℕ)
      → (os.recv w h n).0 ≡ failed
      → to_come (os.recv w h n).1 h ≡ to_come w h
