-- ===== src/Tls/Incoming.antt =====
-- What the BIO functions of tls.cpp give to mbedTLS, against the stream of the TCP connection.
use bit_magic_zi_modem.Base.{
  ℕ, suc, ◌+◌, ◌^◌, ◌<◌, ◌≡◌, refl, sym, ap, subst, ◌∙◌, Bool, true, false, some, List, [], ◌∷◌,
  ◌++◌, arith, ◌==◌, length, take_all, All, inl, inr, Bool-cases, if◌then◌else◌,
}
use mathlib.Core.List.{append_assoc}
use bit_magic_zi_modem.Base.Int.{pos, to_int, to_int_small}
use bit_magic_zi_modem.Net.Os.{Os, StreamLaws, Received, bytes, orderly_close, would_block, failed}
use bit_magic_zi_modem.Net.Tcp.{TcpSocket, adopt, connected, read, read_result}
use bit_magic_zi_modem.Tls.{Bio, moved, want, broken, got, bio_recv}

-- The bytes that a call hands to the library.
abbrev pub handed : Bio (List ℕ) → List ℕ
handed (moved bs) = bs
handed want = []
handed broken = []

waiting : (b : Bool) → handed (if b then want else broken) ≡ []
waiting true = refl
waiting false = refl

module _ (os : Os) where
  -- The bytes that calls with these lengths hand over, and the socket and world behind them.
  unfoldable pub receive_all : TcpSocket → os.World → List ℕ → List ℕ × TcpSocket × os.World
  receive_all s w [] = ([], s, w)
  receive_all s w (n ∷ ns) =
      let r = bio_recv os s w n in
      let rest = receive_all r.1 r.2 ns in (handed r.0 ++ rest.0, rest.1, rest.2)

  -- A positive count is the length of what was read.
  got_bytes :
      (bs : List ℕ) (s : TcpSocket) (w : os.World)
      → length bs < 2 ^ 31
      → handed (got os (record { code = to_int (0 + length bs); buffer = bs }, s, w)).0 ≡ bs
  got_bytes [] s w h = waiting (connected os s w)
  got_bytes (x ∷ xs) s w h =
      let e : to_int (0 + length (x ∷ xs)) ≡ pos (length (x ∷ xs)) =
        to_int_small (0 + length (x ∷ xs)) (omega (arith, h)) ∙ ap pos (omega arith) in
      rw e (take_all (suc (length xs)) (x ∷ xs) (omega arith))

module _ (os : Os) (laws : StreamLaws os) where
  open laws use {to_come, recv_some, recv_closed, recv_would_block, recv_failed}

  abbrev pub Hands : ℕ → os.World → Bio (List ℕ) × TcpSocket × os.World → Type 0
  Hands h w (b, s, v) = (s ≡ adopt (some h)) × (handed b ++ to_come v h ≡ to_come w h)

  pub bio_recv-Hands :
      (h : ℕ) (w : os.World) (n : ℕ) → n < 2 ^ 30 → Hands h w (bio_recv os (adopt (some h)) w n)
  unfolding bio_recv read
  bio_recv-Hands h w n small = elim (Bool-cases (n == 0)) [
    | inl e ↦ rw e (nothing w refl)
    | inr e ↦ rw e (go (os.recv w h n).0 refl)
  ]
    where
      nothing :
          (v : os.World)
          → to_come v h ≡ to_come w h
          → Hands h w (if connected os (adopt (some h)) v then want else broken, adopt (some h), v)
      nothing v e =
          (refl, ap (λ bs. bs ++ to_come v h) (waiting (connected os (adopt (some h)) v)) ∙ e)

      go :
          (r : Received)
          → (os.recv w h n).0 ≡ r
          → Hands h w (got os (read_result [] r, adopt (some h), (os.recv w h n).1))
      go (bytes bs) e =
          let law = recv_some w h n bs e in
          (
            refl,
            ap (λ xs. xs ++ to_come (os.recv w h n).1 h)
                  (got_bytes os bs (adopt (some h)) (os.recv w h n).1 (omega (arith, law.1)))
                ∙ sym law.2,
          )
      go orderly_close e = (refl, recv_closed w h n e)
      go would_block e = nothing (os.recv w h n).1 (recv_would_block w h n e)
      go failed e = (refl, recv_failed w h n e)

  -- The bytes of calls up to a world, with the socket still the one at `h`.
  abbrev pub IsHanded : ℕ → os.World → List ℕ × TcpSocket × os.World → Type 0
  IsHanded h w (bs, s, v) = (s ≡ adopt (some h)) × (bs ++ to_come v h ≡ to_come w h)

  -- Whatever errors the connection has in between, calls of bio_recv on a connected socket hand the
  -- bytes of the TCP stream to mbedTLS from its front, each once and in order, and the rest is still
  -- to come on the same socket, for lengths below 2^30.
  pub receive_all-stream :
      (h : ℕ) (ns : List ℕ) (w : os.World)
      → All (λ n. n < 2 ^ 30) ns
      → IsHanded h w (receive_all os (adopt (some h)) w ns)
  unfolding receive_all
  receive_all-stream h [] w small = (refl, refl)
  receive_all-stream h (n ∷ ns) w small =
      let a = bio_recv-Hands h w n small.0 in
      let r = bio_recv os (adopt (some h)) w n in
      let k =
        subst (λ s. IsHanded h r.2 (receive_all os s r.2 ns)) (sym a.0)
          (receive_all-stream h ns r.2 small.1) in
      (k.0, append_assoc (handed r.0) _ _ ∙ ap (λ x. handed r.0 ++ x) k.1 ∙ a.1)
