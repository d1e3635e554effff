-- ===== src/Tls/Plain.antt =====
-- The application bytes of a TLS session: what available, peek_byte and read hand out.
use mathlib.Core.List.{append_assoc}
use bit_magic_zi_modem.Base.{
  subst, some, ◌^◌, ◌<◌, ℕ, ◌+◌, ◌≡◌, refl, sym, ap, ◌∙◌, Bool, true, false, not, ◌||◌, List, [],
  ◌∷◌, ◌++◌, arith, if◌then◌else◌, ◌==◌, ltb, length, take, drop, Bool-cases, inl, inr,
  take-append-drop, drop-drop, drop_all,
}
use bit_magic_zi_modem.Base.Int.{ℤ}
use bit_magic_zi_modem.Net.Os.{Os}
use bit_magic_zi_modem.Net.Tcp.{TcpSocket, adopt}
use bit_magic_zi_modem.Tls.{
  Mbedtls, Decrypted, plain, waits, over, Tls, glue, buffered, count, pumped, pump, available,
  read_pumped, read, peek_byte,
}

-- The bytes of an answer of mbedtls_ssl_read.
abbrev pub text : Decrypted → List ℕ
text (plain bs) = bs
text waits = []
text over = []

-- A session over the connection at `h`, with the BIO functions of tls.cpp set: it has a sequence of
-- bytes to come, which may depend on what the connection still brings, and mbedtls_ssl_read hands
-- out some of them from the front, or none. It touches the socket through the BIO functions alone,
-- which leave it at `h`.
pub record PlainLaws (os : Os) (tls : Mbedtls os) (h : ℕ) : Type 0 where
  pub to_come : tls.State → os.World → List ℕ
  pub ssl_reads :
      (m : tls.State) (w : os.World) (n : ℕ)
      → n < 2 ^ 30
      → let r = tls.ssl_read (glue os) m (adopt (some h)) w n in
        (r.2 ≡ adopt (some h)) × (text r.0 ++ to_come r.1 r.3 ≡ to_come m w)

pub data Poll : Type 0 where
  asks peeks : Poll
  reads : ℕ → Poll

module _ (os : Os) (tls : Mbedtls os) where
  -- The bytes that a sequence of polls copies out, and the socket behind it.
  unfoldable pub poll : Tls os tls → List Poll → List ℕ × Tls os tls
  unfolding available read peek_byte
  poll s [] = ([], s)
  poll s (asks ∷ ps) = poll (available os tls s).1 ps
  poll s (peeks ∷ ps) = poll (peek_byte os tls s).1 ps
  poll s (reads n ∷ ps) = let r = read os tls s n in let t = poll r.2 ps in (r.1 ++ t.0, t.1)

module _ (os : Os) (tls : Mbedtls os) (h : ℕ) (laws : PlainLaws os tls h) where
  open laws use {to_come, ssl_reads}

  -- The buffer's bytes that are not read, and then those of the session.
  abbrev pub incoming : Tls os tls → List ℕ
  incoming s = drop s.rxpos s.rx ++ to_come s.state s.world

  -- From `s` to `t` these bytes were copied out, and the socket is still the one at `h`.
  abbrev pub HandsOut : Tls os tls → List ℕ → Tls os tls → Type 0
  HandsOut s bs t = (t.tcp ≡ adopt (some h)) × (bs ++ incoming t ≡ incoming s)

  reads_at :
      (m : tls.State) (t : TcpSocket) (w : os.World)
      → t ≡ adopt (some h)
      → let r = tls.ssl_read (glue os) m t w 1536 in
        (r.2 ≡ adopt (some h)) × (text r.0 ++ to_come r.1 r.3 ≡ to_come m w)
  reads_at m t w e =
      subst
        (λ x.
          let r = tls.ssl_read (glue os) m x w 1536 in
          (r.2 ≡ adopt (some h)) × (text r.0 ++ to_come r.1 r.3 ≡ to_come m w))
        (sym e) (ssl_reads m w 1536 (omega arith))

  pumped-incoming :
      (s : Tls os tls) (d : Decrypted) (m : tls.State) (t : TcpSocket) (w : os.World)
      → let p = pumped os tls s (d, m, t, w) in (p.tcp ≡ t) × (incoming p ≡ text d ++ to_come m w)
  pumped-incoming s (plain bs) m t w = (refl, refl)
  pumped-incoming s waits m t w = (refl, refl)
  pumped-incoming s over m t w = (refl, refl)

  pump-HandsOut : (s : Tls os tls) → s.tcp ≡ adopt (some h) → HandsOut s [] (pump os tls s)
  unfolding pump
  pump-HandsOut s e = elim (Bool-cases (ltb s.rxpos (length s.rx) || s.fatal)) [
    | inl b ↦ rw b (e, refl)
    | inr b ↦
        let r = tls.ssl_read (glue os) s.state s.tcp s.world 1536 in
        let a = reads_at s.state s.tcp s.world e in
        let p = pumped-incoming s r.0 r.1 r.2 r.3 in
        rw b (
          p.0 ∙ a.0,
          p.1
              ∙ a.1
              ∙ ap (λ xs. xs ++ to_come s.state s.world)
                  (sym (drop_all s.rxpos s.rx (ground (arith, b)))),
        )
  ]

  HandsOut-trans :
      (s t u : Tls os tls) (bs cs : List ℕ)
      → HandsOut s bs t
      → HandsOut t cs u
      → HandsOut s (bs ++ cs) u
  HandsOut-trans s t u bs cs a b =
      (b.0, append_assoc bs cs (incoming u) ∙ ap (λ xs. bs ++ xs) b.1 ∙ a.1)

  read_pumped-HandsOut :
      (s : Tls os tls) (len : ℕ)
      → s.tcp ≡ adopt (some h)
      → let r = read_pumped os tls s len in HandsOut s r.1 r.2
  read_pumped-HandsOut s len q = elim (Bool-cases (buffered os tls s == 0)) [
    | inl e ↦ rw e (q, refl)
    | inr e ↦
        let k = count os tls s len in
        rw e (
          q,
          sym (append_assoc (take k (drop s.rxpos s.rx)) (drop (s.rxpos + k) s.rx) _)
              ∙ ap (λ xs. xs ++ to_come s.state s.world)
                  (ap (λ ys. take k (drop s.rxpos s.rx) ++ ys) (sym (drop-drop k s.rxpos s.rx))
                    ∙ take-append-drop k (drop s.rxpos s.rx)),
        )
  ]

  read-HandsOut :
      (s : Tls os tls) (len : ℕ)
      → s.tcp ≡ adopt (some h)
      → let r = read os tls s len in HandsOut s r.1 r.2
  unfolding read
  read-HandsOut s len q = elim (Bool-cases (not s.handshaked || len == 0)) [
    | inl e ↦ rw e (q, refl)
    | inr e ↦
        let p = pump-HandsOut s q in
        let r = read_pumped os tls (pump os tls s) len in
        rw e (
          HandsOut-trans s (pump os tls s) r.2 [] r.1 p
            (read_pumped-HandsOut (pump os tls s) len p.0))
  ]

  either-HandsOut :
      (s : Tls os tls) (b : Bool) (x y : ℤ × Tls os tls)
      → HandsOut s [] x.1
      → HandsOut s [] y.1
      → HandsOut s [] (if b then x else y).1
  either-HandsOut s true x y a b = a
  either-HandsOut s false x y a b = b

  available-HandsOut :
      (s : Tls os tls) → s.tcp ≡ adopt (some h) → HandsOut s [] (available os tls s).1
  unfolding available
  available-HandsOut s q = either-HandsOut s s.handshaked _ _ (pump-HandsOut s q) (q, refl)

  peek_byte-HandsOut :
      (s : Tls os tls) → s.tcp ≡ adopt (some h) → HandsOut s [] (peek_byte os tls s).1
  unfolding peek_byte
  peek_byte-HandsOut s q = either-HandsOut s s.handshaked _ _ (pump-HandsOut s q) (q, refl)

  -- Over an mbedTLS with these laws, on a socket at `h`, any sequence of available, peek_byte and
  -- read hands out the bytes of the session from their front, each once and in order, and loses
  -- none: the socket stays at `h` and stands for the rest.
  pub poll-incoming :
      (s : Tls os tls) (ps : List Poll)
      → s.tcp ≡ adopt (some h)
      → let r = poll os tls s ps in HandsOut s r.0 r.1
  unfolding poll
  poll-incoming s [] q = (q, refl)
  poll-incoming s (asks ∷ ps) q =
      let a = available-HandsOut s q in
      let r = poll-incoming (available os tls s).1 ps a.0 in (r.0, r.1 ∙ a.1)
  poll-incoming s (peeks ∷ ps) q =
      let a = peek_byte-HandsOut s q in
      let r = poll-incoming (peek_byte os tls s).1 ps a.0 in (r.0, r.1 ∙ a.1)
  poll-incoming s (reads n ∷ ps) q =
      let a = read-HandsOut s n q in
      let r = read os tls s n in
      let t = poll os tls r.2 ps in
      HandsOut-trans s r.2 t.1 r.1 t.0 a (poll-incoming (read os tls s n).2 ps a.0)
