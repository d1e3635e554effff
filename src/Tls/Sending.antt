-- ===== src/Tls/Sending.antt =====
-- TlsSocket::write. Its loop is on fuel: each round hands over a byte at least or uses up one of
-- the waits that the deadline leaves, `polls`, so that their sum with the length is enough.
use mathlib.Core.List.{append-nil, append_assoc}
use bit_magic_zi_modem.Base.{
  ◌⊎◌, inl, inr, drop-drop, ℕ, zero, suc, ◌+◌, ◌≤◌, ◌≡◌, refl, sym, ap, ◌∙◌, true, false, not, ◌||◌,
  Option, none, some, List, [], ◌∷◌, ◌++◌, arith, if◌then◌else◌, ◌==◌, length, take, drop,
  length-drop,
}
use bit_magic_zi_modem.Net.Os.{Os}
use bit_magic_zi_modem.Net.Tcp.{TcpSocket}
use bit_magic_zi_modem.Tls.{Mbedtls, Progress, did, blocked, refused, glue, Tls}
use bit_magic_zi_modem.Tls.Session.{after}

-- A buffer that mbedtls_ssl_write may be called with: behind an MBEDTLS_ERR_SSL_WANT_* it has to be
-- called with the same arguments again, until it answers something else.
abbrev pub Fits : Option (List ℕ) → List ℕ → Type 0
Fits none buf = Unit
Fits (some b) buf = b ≡ buf

-- The session has a sequence of the bytes accepted, and the buffer that it waits for. Called with a
-- buffer that fits, with the BIO functions of tls.cpp set, mbedtls_ssl_write adds as many bytes
-- from the front of the buffer as it answers; behind a WANT it waits for the same buffer, and
-- behind a count for none.
pub record SendLaws (os : Os) (tls : Mbedtls os) : Type 0 where
  pub accepted : tls.State → List ℕ
  pub pending : tls.State → Option (List ℕ)
  pub write_some :
      (m : tls.State) (t : TcpSocket) (w : os.World) (buf : List ℕ) (n : ℕ)
      → Fits (pending m) buf
      → (tls.ssl_write (glue os) m t w buf).0 ≡ did n
      → let m' = (tls.ssl_write (glue os) m t w buf).1 in
        (n ≤ length buf) × (accepted m' ≡ accepted m ++ take n buf) × (pending m' ≡ none)
  pub write_blocked :
      (m : tls.State) (t : TcpSocket) (w : os.World) (buf : List ℕ)
      → Fits (pending m) buf
      → (tls.ssl_write (glue os) m t w buf).0 ≡ blocked
      → let m' = (tls.ssl_write (glue os) m t w buf).1 in
        (accepted m' ≡ accepted m) × (pending m' ≡ some buf)
  pub write_refused :
      (m : tls.State) (t : TcpSocket) (w : os.World) (buf : List ℕ)
      → Fits (pending m) buf
      → (tls.ssl_write (glue os) m t w buf).0 ≡ refused
      → accepted (tls.ssl_write (glue os) m t w buf).1 ≡ accepted m

module _ (os : Os) (tls : Mbedtls os) where
  -- `impl_->fatal = true; break;`
  abbrev pub broke_off : Tls os tls → ℕ → Option (ℕ × Tls os tls)
  broke_off s sent = some (sent, record s { fatal = true })

  -- What a round makes of the answer of mbedtls_ssl_write: `onward` is the loop behind n bytes,
  -- `retry` the loop behind a wait, if the deadline leaves one.
  abbrev pub wrote :
      Progress
      → ℕ
      → Tls os tls
      → ℕ
      → (ℕ → Option (ℕ × Tls os tls))
      → (ℕ → Option (ℕ × Tls os tls))
      → Option (ℕ × Tls os tls)
  wrote (did zero) polls s sent onward retry = broke_off s sent
  wrote (did (suc n)) polls s sent onward retry = onward (suc n)
  wrote blocked zero s sent onward retry = some (sent, s)
  wrote blocked (suc polls) s sent onward retry = retry polls
  wrote refused polls s sent onward retry = broke_off s sent

  -- `none`: out of fuel.
  unfoldable pub write_loop : ℕ → ℕ → Tls os tls → List ℕ → ℕ → Option (ℕ × Tls os tls)
  unfolding glue
  write_loop fuel polls s [] sent = some (sent, s)
  write_loop zero polls s (b ∷ bs) sent = none
  write_loop (suc fuel) polls s (b ∷ bs) sent =
      let r = tls.ssl_write (glue os) s.state s.tcp s.world (b ∷ bs) in
      wrote r.0 polls (after os tls s r) sent
        (λ n. write_loop fuel polls (after os tls s r) (drop n (b ∷ bs)) (sent + n))
        (λ left. write_loop fuel left (after os tls s r) (b ∷ bs) sent)

  unfoldable pub write : ℕ → Tls os tls → List ℕ → Option (ℕ × Tls os tls)
  unfolding write_loop
  write polls s buf =
      if not s.handshaked || length buf == 0
      then some (0, s)
      else write_loop (length buf + polls) polls s buf 0

module _ (os : Os) (tls : Mbedtls os) (laws : SendLaws os tls) where
  open laws use {accepted, pending, write_some, write_blocked, write_refused}

  -- What is left behind n bytes: nothing, a broken session, or one that waits for the rest.
  abbrev pub Rest : Tls os tls → List ℕ → ℕ → Type 0
  Rest t buf n = (n ≡ length buf) ⊎ ((t.fatal ≡ true) ⊎ (pending t.state ≡ some (drop n buf)))

  -- The loop ends with a count, and the session has accepted as many bytes from the front.
  abbrev pub Sent : Tls os tls → List ℕ → ℕ → Option (ℕ × Tls os tls) → Type 0
  Sent s buf sent r =
      (n : ℕ) × (t : Tls os tls) × (r ≡ some (sent + n, t))
      × (n ≤ length buf)
      × (accepted t.state ≡ accepted s.state ++ take n buf)
      × Rest t buf n

  take_nil : (n : ℕ) → take {A = ℕ} n [] ≡ []
  take_nil zero = refl
  take_nil (suc n) = refl

  take_plus : (m n : ℕ) (xs : List ℕ) → take m xs ++ take n (drop m xs) ≡ take (m + n) xs
  take_plus zero n xs = ap (λ k. take k xs) (omega arith)
  take_plus (suc m) n [] = take_nil n ∙ sym (take_nil (suc m + n))
  take_plus (suc m) n (x ∷ xs) =
      let e : suc (m + n) ≡ suc m + n = omega arith in
      ap (◌∷◌ x) (take_plus m n xs) ∙ ap (λ k. take k (x ∷ xs)) e

  -- A round that adds nothing, and is the last.
  stays :
      (s t : Tls os tls) (buf : List ℕ) (sent : ℕ)
      → accepted t.state ≡ accepted s.state
      → Rest t buf 0
      → Sent s buf sent (some (sent, t))
  stays s t buf sent e r =
      (0, t, ap (λ k. some (k, t)) (omega arith), omega arith, e ∙ sym (append-nil _), r)

  Rest-drop :
      (t : Tls os tls) (buf : List ℕ) (n m : ℕ)
      → n ≤ length buf
      → Rest t (drop n buf) m
      → Rest t buf (n + m)
  Rest-drop t buf n m h (inl e) = inl (omega (arith, e, h, length-drop n buf))
  Rest-drop t buf n m h (inr (inl e)) = inr (inl e)
  Rest-drop t buf n m h (inr (inr e)) = inr (inr (e ∙ ap some (drop-drop m n buf)))

  -- A round that hands over n bytes, with the loop behind it.
  goes_on :
      (s t : Tls os tls) (buf : List ℕ) (sent n : ℕ) (r : Option (ℕ × Tls os tls))
      → n ≤ length buf
      → accepted t.state ≡ accepted s.state ++ take n buf
      → Sent t (drop n buf) (sent + n) r
      → Sent s buf sent r
  goes_on s t buf sent n r h e (m, u, f, k, g, l) =
      let plus : sent + n + m ≡ sent + (n + m) = omega arith in
      (
        n + m,
        u,
        f ∙ ap (λ k. some (k, u)) plus,
        omega (arith, h, k, length-drop n buf),
        g
            ∙ ap (λ xs. xs ++ take m (drop n buf)) e
            ∙ append_assoc (accepted s.state) (take n buf) (take m (drop n buf))
            ∙ ap (λ xs. accepted s.state ++ xs) (take_plus n m buf),
        Rest-drop u buf n m h l,
      )

  wrote-Sent :
      (polls : ℕ) (s t : Tls os tls) (buf : List ℕ) (sent : ℕ) (p : Progress)
      (onward retry : ℕ → Option (ℕ × Tls os tls))
      → ((n : ℕ)
          → p ≡ did n
          → (n ≤ length buf)
            × (accepted t.state ≡ accepted s.state ++ take n buf)
            × (pending t.state ≡ none))
      → (p ≡ blocked → (accepted t.state ≡ accepted s.state) × (pending t.state ≡ some buf))
      → (p ≡ refused → accepted t.state ≡ accepted s.state)
      → ((n : ℕ)
          → suc n ≤ length buf
          → pending t.state ≡ none
          → Sent t (drop (suc n) buf) (sent + suc n) (onward (suc n)))
      → ((left : ℕ) → suc left ≡ polls → pending t.state ≡ some buf → Sent t buf sent (retry left))
      → Sent s buf sent (wrote os tls p polls t sent onward retry)
  wrote-Sent polls s t buf sent (did zero) onward retry a b c d e =
      stays s (record t { fatal = true }) buf sent ((a 0 refl).1 ∙ append-nil _) (inr (inl refl))
  wrote-Sent polls s t buf sent (did (suc n)) onward retry a b c d e =
      let h = a (suc n) refl in goes_on s t buf sent (suc n) _ h.0 h.1 (d n h.0 h.2)
  wrote-Sent zero s t buf sent blocked onward retry a b c d e =
      stays s t buf sent (b refl).0 (inr (inr (b refl).1))
  wrote-Sent (suc left) s t buf sent blocked onward retry a b c d e =
      let (n, u, f, k, g, l) = e left refl (b refl).1 in
      (n, u, f, k, g ∙ ap (λ xs. xs ++ take n buf) (b refl).0, l)
  wrote-Sent polls s t buf sent refused onward retry a b c d e =
      stays s (record t { fatal = true }) buf sent (c refl) (inr (inl refl))

  Fits-none : (o : Option (List ℕ)) (buf : List ℕ) → o ≡ none → Fits o buf
  Fits-none none buf e = tt
  Fits-none (some b) buf e = cc (e)

  Fits-same : (o : Option (List ℕ)) (buf : List ℕ) → o ≡ some buf → Fits o buf
  Fits-same none buf e = tt
  Fits-same (some b) buf e = cc (e)

  write_loop-Sent :
      (fuel polls : ℕ) (s : Tls os tls) (buf : List ℕ) (sent : ℕ)
      → length buf + polls ≤ fuel
      → Fits (pending s.state) buf
      → Sent s buf sent (write_loop os tls fuel polls s buf sent)
  unfolding write_loop
  write_loop-Sent fuel polls s [] sent h v = stays s s [] sent refl (inl refl)
  write_loop-Sent zero polls s (b ∷ bs) sent h v = absurd (omega (arith, h))
  write_loop-Sent (suc fuel) polls s (b ∷ bs) sent h v =
      let r = tls.ssl_write (glue os) s.state s.tcp s.world (b ∷ bs) in
      wrote-Sent polls s (after os tls s r) (b ∷ bs) sent r.0 _ _
        (λ n e. write_some s.state s.tcp s.world (b ∷ bs) n v e)
        (λ e. write_blocked s.state s.tcp s.world (b ∷ bs) v e)
        (λ e. write_refused s.state s.tcp s.world (b ∷ bs) v e)
        (λ n k p.
          write_loop-Sent fuel polls (after os tls s r) (drop (suc n) (b ∷ bs)) (sent + suc n)
            (omega (arith, h, k, length-drop (suc n) (b ∷ bs))) (Fits-none _ _ p))
        (λ left e p.
          write_loop-Sent fuel left (after os tls s r) (b ∷ bs) sent (omega (arith, h, e))
            (Fits-same _ _ p))

  -- Over an mbedTLS with these laws, on a session that is set up and that may be called with this
  -- buffer, write always comes back: with the count of the bytes that the session has accepted,
  -- which are the first of the buffer and in their order; and either these are all, or the session
  -- is fatal, or it still waits for the rest of the buffer and may be called with nothing else.
  pub write-accepted :
      (polls : ℕ) (s : Tls os tls) (buf : List ℕ)
      → s.handshaked ≡ true
      → Fits (pending s.state) buf
      → (n : ℕ) × (t : Tls os tls) × (write os tls polls s buf ≡ some (n, t))
        × (n ≤ length buf)
        × (accepted t.state ≡ accepted s.state ++ take n buf)
        × ((n ≡ length buf) ⊎ ((t.fatal ≡ true) ⊎ (pending t.state ≡ some (drop n buf))))
  unfolding write
  write-accepted polls s [] h v =
      let e : (not s.handshaked || length {A = ℕ} [] == 0) ≡ true =
        ap (λ b. not b || length {A = ℕ} [] == 0) h in
      (
        0,
        s,
        ap (λ b. if b then some (0, s) else write_loop os tls (0 + polls) polls s [] 0) e,
        omega arith,
        sym (append-nil _),
        inl refl,
      )
  write-accepted polls s (b ∷ bs) h v =
      let (n, t, f, k, g, l) =
        write_loop-Sent (length (b ∷ bs) + polls) polls s (b ∷ bs) 0 (omega arith) v in
      let z : (length (b ∷ bs) == 0) ≡ false = ground arith in
      let e : (not s.handshaked || length (b ∷ bs) == 0) ≡ false =
        ap (λ c. not c || length (b ∷ bs) == 0) h ∙ z in
      let plus : 0 + n ≡ n = omega arith in
      (
        n,
        t,
        ap
              (λ c.
                if c
                then some (0, s)
                else write_loop os tls (length (b ∷ bs) + polls) polls s (b ∷ bs) 0)
              e
            ∙ f
            ∙ ap (λ j. some (j, t)) plus,
        k,
        g,
        l,
      )
