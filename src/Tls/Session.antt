-- ===== src/Tls/Session.antt =====
-- TlsSocket::connect, and what close leaves for the next one.
use bit_magic_zi_modem.Base.{ℕ, zero, suc, ◌≡◌, refl, ◌∙◌, Bool, true, false, not, ◌&&◌, List}
use bit_magic_zi_modem.Net.Os.{Os}
use bit_magic_zi_modem.Net.Tcp.{TcpSocket}
use bit_magic_zi_modem.Net.Tcp as Tcp
use bit_magic_zi_modem.Tls.{Mbedtls, Progress, did, blocked, refused, Tls, glue, connected, close}

module _ (os : Os) (tls : Mbedtls os) where
  -- `impl_->tcp.close(); return false;`
  abbrev pub gave_up : Tls os tls → Bool × Tls os tls
  gave_up s = let c = Tcp.close os s.tcp s.world in (false, record s { tcp = c.0; world = c.1 })

  abbrev pub after : Tls os tls → Progress × tls.State × TcpSocket × os.World → Tls os tls
  after s r = record s { state = r.1; tcp = r.2; world = r.3 }

  -- What a round of the loop makes of the handshake's answer, `again` being the rounds behind it.
  abbrev pub shaken : Progress → Tls os tls → Bool × Tls os tls → Bool × Tls os tls
  shaken (did n) s again = (true, record s { handshaked = true })
  shaken blocked s again = again
  shaken refused s again = gave_up s

  -- The handshake loop: `polls` is how many times it may still wait before the deadline is over.
  unfoldable pub shake : ℕ → Tls os tls → Bool × Tls os tls
  unfolding glue Tcp.close
  shake zero s =
      let r = tls.handshake (glue os) s.state s.tcp s.world in
      shaken r.0 (after s r) (gave_up (after s r))
  shake (suc polls) s =
      let r = tls.handshake (glue os) s.state s.tcp s.world in
      shaken r.0 (after s r) (shake polls (after s r))

  -- Behind mbedtls_ssl_setup, behind mbedtls_ssl_config_defaults, and behind the seed.
  abbrev pub set_up : ℕ → List ℕ → Tls os tls → Bool × tls.State → Bool × Tls os tls
  set_up polls host s (true, m) = shake polls (record s { state = tls.set_hostname m host })
  set_up polls host s (false, m) = gave_up (record s { state = m })

  abbrev pub configured : ℕ → List ℕ → Tls os tls → Bool × tls.State → Bool × Tls os tls
  configured polls host s (true, m) = set_up polls host (record s { state = m }) (tls.setup m)
  configured polls host s (false, m) = gave_up (record s { state = m })

  abbrev pub seeded : ℕ → List ℕ → Tls os tls → Bool × tls.State → Bool × Tls os tls
  seeded polls host s (true, m) =
      configured polls host (record s { state = m }) (tls.config_defaults m)
  seeded polls host s (false, m) = gave_up (record s { state = m })

  abbrev pub dialled : ℕ → List ℕ → Tls os tls → Bool × TcpSocket × os.World → Bool × Tls os tls
  dialled polls host s (true, t, w) =
      seeded polls host (record s { tcp = t; world = w }) (tls.seed s.state)
  dialled polls host s (false, t, w) = (false, record s { tcp = t; world = w })

  unfoldable pub connect : ℕ → Tls os tls → List ℕ → ℕ → Bool × Tls os tls
  unfolding shake Tcp.connect Tcp.close
  connect polls s host port = dialled polls host s (Tcp.connect os s.tcp s.world host port)

  shaken-fatal :
      (p : Progress) (s : Tls os tls) (again : Bool × Tls os tls)
      → again.1.fatal ≡ s.fatal
      → (shaken p s again).1.fatal ≡ s.fatal
  shaken-fatal (did n) s again h = refl
  shaken-fatal blocked s again h = h
  shaken-fatal refused s again h = refl

  shake-fatal : (polls : ℕ) (s : Tls os tls) → (shake polls s).1.fatal ≡ s.fatal
  unfolding shake
  shake-fatal zero s =
      let r = tls.handshake (glue os) s.state s.tcp s.world in
      shaken-fatal r.0 (after s r) (gave_up (after s r)) refl
  shake-fatal (suc polls) s =
      let r = tls.handshake (glue os) s.state s.tcp s.world in
      shaken-fatal r.0 (after s r) (shake polls (after s r)) (shake-fatal polls (after s r))

  connect-fatal :
      (polls : ℕ) (s : Tls os tls) (host : List ℕ) (port : ℕ)
      → (connect polls s host port).1.fatal ≡ s.fatal
  unfolding connect
  connect-fatal polls s host port = dialled-fatal (Tcp.connect os s.tcp s.world host port)
    where
      set_up-fatal :
          (s : Tls os tls) (r : Bool × tls.State) → (set_up polls host s r).1.fatal ≡ s.fatal
      set_up-fatal s (true, m) = shake-fatal polls _
      set_up-fatal s (false, m) = refl

      configured-fatal :
          (s : Tls os tls) (r : Bool × tls.State) → (configured polls host s r).1.fatal ≡ s.fatal
      configured-fatal s (true, m) = set_up-fatal (record s { state = m }) (tls.setup m)
      configured-fatal s (false, m) = refl

      seeded-fatal :
          (s : Tls os tls) (r : Bool × tls.State) → (seeded polls host s r).1.fatal ≡ s.fatal
      seeded-fatal s (true, m) = configured-fatal (record s { state = m }) (tls.config_defaults m)
      seeded-fatal s (false, m) = refl

      dialled-fatal : (r : Bool × TcpSocket × os.World) → (dialled polls host s r).1.fatal ≡ s.fatal
      dialled-fatal (true, t, w) = seeded-fatal (record s { tcp = t; world = w }) (tls.seed s.state)
      dialled-fatal (false, t, w) = refl

  -- Once a socket was closed, no later connect brings it back: whatever connect answers, connected
  -- is false behind it.
  pub connect-close :
      (polls : ℕ) (s : Tls os tls) (host : List ℕ) (port : ℕ)
      → connected os tls (connect polls (close os tls s) host port).1 ≡ false
  unfolding connected
  connect-close polls s host port =
      let c = (connect polls (close os tls s) host port).1 in
      let e : c.fatal ≡ true =
        connect-fatal polls (close os tls s) host port ∙ (unfold close in refl) in
      dead c.handshaked c.fatal (Tcp.connected os c.tcp c.world) e
    where
      dead : (h f t : Bool) → f ≡ true → (h && not f && t) ≡ false
      dead true f t e = rw e refl
      dead false f t e = refl
