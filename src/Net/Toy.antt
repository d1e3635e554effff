-- ===== src/Net/Toy.antt =====
-- A small operating system that satisfies the laws: handles count up, connecting works at port 23
-- alone, and `resets` says when a connection is broken.
use bit_magic_zi_modem.Base.{
  ℕ, ◌+◌, ◌≤◌, ◌<◌, ◌≡◌, refl, sym, ap, ◌∙◌, ◌≢◌, Bool, true, false, Option, none, some, List, [],
  ◌∷◌, ◌++◌, arith, ◌==◌, if◌then◌else◌, length, take, drop, length-take, take-append-drop,
}
use bit_magic_zi_modem.Net.Os.{
  Os, DescriptorLaws, StreamLaws, Received, bytes, orderly_close, would_block, failed,
}

-- The next handle, the open handles, and the bytes to come.
pub record ToyWorld : Type 0 where
  pub fresh : ℕ
  pub live : ℕ → Bool
  pub coming : ℕ → List ℕ

abbrev pub update : (ℕ → Bool) → ℕ → Bool → ℕ → Bool
update f h b j = if j == h then b else f j

abbrev pub toy_socket : ToyWorld → Bool → Option ℕ × ToyWorld
toy_socket w true = (none, w)
toy_socket w false =
    (some w.fresh, record w { fresh = w.fresh + 1; live = update w.live w.fresh true })

abbrev pub toy_recv : ToyWorld → ℕ → List ℕ → ℕ → Bool → Received × ToyWorld
toy_recv w h bs n true = (failed, w)
toy_recv w h [] n false = (would_block, w)
toy_recv w h (b ∷ bs) n false =
    (bytes (b ∷ bs), record w { coming = λ j. if j == h then drop n (w.coming h) else w.coming j })

-- `resets` says in which worlds recv reports a broken connection.
abbrev pub toy : (ToyWorld → Bool) → Os
toy resets = record {
  World = ToyWorld;
  inet_pton = λ host. some 16777343;
  getaddrinfo = λ w host. (none, w);
  socket = λ w k. toy_socket w (w.live w.fresh);
  connect = λ w h a p. (p == 23, w);
  bind = λ w h p. (true, w);
  listen = λ w h n. (true, w);
  accept = λ w h. toy_socket w (w.live w.fresh);
  select_readable = λ w h. true;
  set_non_blocking = λ w h. w;
  set_reuse_address = λ w h. w;
  set_tcp_no_delay = λ w h b. w;
  close = λ w h. record w { live = update w.live h false };
  recv = λ w h n. toy_recv w h (take n (w.coming h)) n (resets w);
  recv_peek = λ w h n. would_block;
  send = λ w h bs. (some (length bs), w);
  fionread = λ w h. some (length (w.coming h));
  local_port_of = λ w h. some 0;
  peer_address_of = λ w h. some 0;
  sendto = λ w h bs a p. (true, w);
  recvfrom = λ w h n. (would_block, w);
}

pub toy_fresh :
    (w : ToyWorld) (b : Bool) (h : ℕ)
    → w.live w.fresh ≡ b
    → (toy_socket w b).0 ≡ some h
    → w.live h ≡ false
toy_fresh w true h e f = cc
toy_fresh w false h e f = ground (arith, ap w.live (same f))
  where
    same : some w.fresh ≡ some h → w.fresh ≡ h
    same f = cc

pub toy_opens :
    (w : ToyWorld) (b : Bool) (h j : ℕ)
    → (toy_socket w b).0 ≡ some h
    → (toy_socket w b).1.live j ≡ (if j == h then true else w.live j)
toy_opens w true h j f = cc
toy_opens w false h j f = ground arith

pub toy_fails :
    (w : ToyWorld) (b : Bool) (j : ℕ)
    → (toy_socket w b).0 ≡ none
    → (toy_socket w b).1.live j ≡ w.live j
toy_fails w true j f = refl
toy_fails w false j f = cc

pub toy_recv-live :
    (w : ToyWorld) (h : ℕ) (ts : List ℕ) (n : ℕ) (r : Bool) (j : ℕ)
    → (toy_recv w h ts n r).1.live j ≡ w.live j
toy_recv-live w h ts n true j = refl
toy_recv-live w h [] n false j = refl
toy_recv-live w h (t ∷ ts) n false j = refl

abbrev pub toy_descriptors : (resets : ToyWorld → Bool) → DescriptorLaws (toy resets)
toy_descriptors resets = record {
  is_open = λ w j. w.live j;
  socket_fresh = λ w k h e. toy_fresh w (w.live w.fresh) h refl e;
  socket_opens = λ w k h j e. toy_opens w (w.live w.fresh) h j e;
  socket_fails = λ w k j e. toy_fails w (w.live w.fresh) j e;
  close_closes = λ w h j. refl;
  getaddrinfo_keeps = λ w host j. refl;
  connect_keeps = λ w h a p j. refl;
  bind_keeps = λ w h p j. refl;
  listen_keeps = λ w h n j. refl;
  non_blocking_keeps = λ w h j. refl;
  reuse_keeps = λ w h j. refl;
  accept_fresh = λ w l h e. toy_fresh w (w.live w.fresh) h refl e;
  accept_opens = λ w l h j e. toy_opens w (w.live w.fresh) h j e;
  accept_fails = λ w l j e. toy_fails w (w.live w.fresh) j e;
  recv_keeps = λ w h n j. toy_recv-live w h (take n (w.coming h)) n (resets w) j;
  send_keeps = λ w h bs j. refl;
  no_delay_keeps = λ w h b j. refl;
  sendto_keeps = λ w h bs a p j. refl;
  recvfrom_keeps = λ w h n j. refl;
}

==-self : (h : ℕ) → (h == h) ≡ true
==-self h = ground arith

pub toy_some :
    (w : ToyWorld) (h n : ℕ) (ts bs : List ℕ) (r : Bool)
    → take n (w.coming h) ≡ ts
    → (toy_recv w h ts n r).0 ≡ bytes bs
    → (0 < length bs) × (length bs ≤ n) × (w.coming h ≡ bs ++ (toy_recv w h ts n r).1.coming h)
toy_some w h n ts bs true e f = cc
toy_some w h n [] bs false e f = cc
toy_some w h n (t ∷ ts) bs false e f =
    let same : t ∷ ts ≡ bs = cc in
    (
      omega (arith, ap length same),
      omega (arith, ap length same, ap length e, length-take n (w.coming h)),
      rw (==-self h)
          (sym (take-append-drop n (w.coming h)) ∙ ap (λ v. v ++ drop n (w.coming h)) (e ∙ same)),
    )

pub toy_none :
    (w : ToyWorld) (h n : ℕ) (ts : List ℕ) (r : Bool) (a : Received)
    → ((bs : List ℕ) → a ≢ bytes bs)
    → (toy_recv w h ts n r).0 ≡ a
    → (toy_recv w h ts n r).1.coming h ≡ w.coming h
toy_none w h n ts true a f e = refl
toy_none w h n [] false a f e = refl
toy_none w h n (t ∷ ts) false a f e = absurd (f (t ∷ ts) (sym e))

pub not_close : (bs : List ℕ) → orderly_close ≢ bytes bs
not_close bs = cc

pub not_block : (bs : List ℕ) → would_block ≢ bytes bs
not_block bs = cc

pub not_failed : (bs : List ℕ) → failed ≢ bytes bs
not_failed bs = cc

abbrev pub toy_streams : (resets : ToyWorld → Bool) → StreamLaws (toy resets)
toy_streams resets = record {
  to_come = λ w h. w.coming h;
  recv_some = λ w h n bs e. toy_some w h n (take n (w.coming h)) bs (resets w) refl e;
  recv_closed =
      λ w h n e. toy_none w h n (take n (w.coming h)) (resets w) orderly_close not_close e;
  recv_would_block =
      λ w h n e. toy_none w h n (take n (w.coming h)) (resets w) would_block not_block e;
  recv_failed = λ w h n e. toy_none w h n (take n (w.coming h)) (resets w) failed not_failed e;
}

-- One connection on handle 3 with three bytes to come.
abbrev pub world : ToyWorld
world = record {
  fresh = 4;
  live = λ j. j == 3;
  coming = λ j. if j == 3 then 65 ∷ 66 ∷ 67 ∷ [] else [];
}

abbrev pub calm : Os
calm = toy (λ w. false)

abbrev pub broken : Os
broken = toy (λ w. true)

abbrev pub calm_streams : StreamLaws calm
calm_streams = toy_streams (λ w. false)

abbrev pub broken_streams : StreamLaws broken
broken_streams = toy_streams (λ w. true)

abbrev pub calm_descriptors : DescriptorLaws calm
calm_descriptors = toy_descriptors (λ w. false)

pub calm_recv : (w : ToyWorld) (h k : ℕ) → (calm.recv w h k).0 ≢ failed
calm_recv w h k e = go (take k (w.coming h)) e
  where
    go : (ts : List ℕ) → (toy_recv w h ts k false).0 ≢ failed
    go [] f = cc
    go (t ∷ ts) f = cc
