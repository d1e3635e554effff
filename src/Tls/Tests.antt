-- ===== src/Tls/Tests.antt =====
-- tls.cpp on a session of a small mbedTLS, and its theorems there.
use bit_magic_zi_modem.Base.{
  Option, ◌⊎◌, ℕ, ◌≡◌, ◌≤◌, refl, ap, ◌∙◌, true, false, none, some, List, [], ◌∷◌, ◌++◌, arith,
  length, take, drop, length-take, codes,
}
use bit_magic_zi_modem.Net.Os.{Os, would_block}
use bit_magic_zi_modem.Tls.{
  Bio, moved, want, broken, glue, bio_send, Mbedtls, Decrypted, plain, waits, over, Progress, did,
  blocked, refused, Tls, bio_recv, connected, close, read, peek_byte,
}
use bit_magic_zi_modem.Net.Toy.{calm, calm_streams, world}
use bit_magic_zi_modem.Net.Tcp.{adopt}
use bit_magic_zi_modem.Net.Tcp as Net
use bit_magic_zi_modem.Tls.Incoming.{
  handed, bio_recv-Hands, receive_all, IsHanded, receive_all-stream,
}
use bit_magic_zi_modem.Tls.Plain.{
  PlainLaws, text, poll, asks, peeks, reads, HandsOut, poll-incoming,
}
use bit_magic_zi_modem.Tls.Session.{connect, connect-close}
use bit_magic_zi_modem.Tls.Sending.{SendLaws, write, write-accepted}

-- An operating system whose every call goes through and that has no bytes.
abbrev still : Os
still = record {
  World = ℕ;
  inet_pton = λ host. some 1;
  getaddrinfo = λ w host. (none, w);
  socket = λ w k. (some 3, w);
  connect = λ w h a p. (true, w);
  bind = λ w h p. (true, w);
  listen = λ w h n. (true, w);
  accept = λ w h. (none, w);
  select_readable = λ w h. false;
  set_non_blocking = λ w h. w;
  set_reuse_address = λ w h. w;
  set_tcp_no_delay = λ w h b. w;
  close = λ w h. w;
  recv = λ w h n. (would_block, w);
  recv_peek = λ w h n. would_block;
  send = λ w h bs. (some (length bs), w);
  fionread = λ w h. some 0;
  local_port_of = λ w h. some 0;
  peer_address_of = λ w h. some 0;
  sendto = λ w h bs a p. (true, w);
  recvfrom = λ w h n. (would_block, w);
}

-- The bytes to be read, and the bytes written.
record Lines : Type 0 where
  coming : List ℕ
  gone : List ℕ

-- Two bytes are handed out at a time, and two are accepted, without a connection.
abbrev small : Mbedtls still
small = record {
  State = Lines;
  seed = λ m. (true, m);
  config_defaults = λ m. (true, m);
  setup = λ m. (true, m);
  set_hostname = λ m host. m;
  handshake = λ g m t w. (did 0, m, t, w);
  ssl_read = λ g m t w n. (plain (take 2 m.coming), record m { coming = drop 2 m.coming }, t, w);
  ssl_write = λ g m t w buf. (
    did (length (take 2 buf)),
    record m { gone = m.gone ++ take (length (take 2 buf)) buf },
    t,
    w,
  );
  close_notify = λ g m t w. (m, t, w);
}

abbrev session : Tls still small
session = record {
  tcp = record { handle = some 3; peeked = none };
  state = record { coming = codes "world"; gone = [] };
  rx = codes "hello";
  rxpos = 3;
  handshaked = true;
  fatal = false;
  world = 0;
}

-- A library that encrypts nothing and moves its bytes through the BIO functions.
record Sends : Type 0 where
  gone : List ℕ
  waiting : Option (List ℕ)

abbrev opened : Bio (List ℕ) → Decrypted
opened (moved bs) = plain bs
opened want = waits
opened broken = over

abbrev sealed : Sends → List ℕ → Bio ℕ → Progress × Sends
sealed m buf (moved n) = (
  did (length (take n buf)),
  record { gone = m.gone ++ take (length (take n buf)) buf; waiting = none },
)
sealed m buf want = (blocked, record m { waiting = some buf })
sealed m buf broken = (refused, m)

abbrev through : Mbedtls calm
through = record {
  State = Sends;
  seed = λ m. (true, m);
  config_defaults = λ m. (true, m);
  setup = λ m. (true, m);
  set_hostname = λ m host. m;
  handshake = λ g m t w. (did 0, m, t, w);
  ssl_read = λ g m t w n. let r = g.recv t w n in (opened r.0, m, r.1, r.2);
  ssl_write =
      λ g m t w buf. let r = g.send t w buf in let x = sealed m buf r.0 in (x.0, x.1, t, r.1);
  close_notify = λ g m t w. (m, t, w);
}

text-opened : (b : Bio (List ℕ)) → text (opened b) ≡ handed b
text-opened (moved bs) = refl
text-opened want = refl
text-opened broken = refl

abbrev through_plain : PlainLaws calm through 3
unfolding glue
through_plain = record {
  to_come = λ m w. calm_streams.to_come w 3;
  ssl_reads = λ m w n small.
      let a = bio_recv-Hands calm calm_streams 3 w n small in
      (
        a.0,
        ap (λ bs. bs ++ calm_streams.to_come (bio_recv calm (adopt (some 3)) w n).2 3)
              (text-opened (bio_recv calm (adopt (some 3)) w n).0)
            ∙ a.1,
      );
}

did_count : (m n : ℕ) → did m ≡ did n → m ≡ n
did_count m n e = cc

sealed_some :
    (m : Sends) (buf : List ℕ) (b : Bio ℕ) (n : ℕ)
    → (sealed m buf b).0 ≡ did n
    → (n ≤ length buf)
      × ((sealed m buf b).1.gone ≡ m.gone ++ take n buf)
      × ((sealed m buf b).1.waiting ≡ none)
sealed_some m buf (moved k) n e =
    let c = did_count (length (take k buf)) n e in
    (omega (arith, c, length-take k buf), ap (λ j. m.gone ++ take j buf) c, refl)
sealed_some m buf want n e = cc (e)
sealed_some m buf broken n e = cc (e)

sealed_blocked :
    (m : Sends) (buf : List ℕ) (b : Bio ℕ)
    → (sealed m buf b).0 ≡ blocked
    → ((sealed m buf b).1.gone ≡ m.gone) × ((sealed m buf b).1.waiting ≡ some buf)
sealed_blocked m buf (moved k) e = cc (e)
sealed_blocked m buf want e = (refl, refl)
sealed_blocked m buf broken e = cc (e)

sealed-refused :
    (m : Sends) (buf : List ℕ) (b : Bio ℕ)
    → (sealed m buf b).0 ≡ refused
    → (sealed m buf b).1.gone ≡ m.gone
sealed-refused m buf (moved k) e = cc (e)
sealed-refused m buf want e = refl
sealed-refused m buf broken e = refl

abbrev through_sends : SendLaws calm through
unfolding glue
through_sends = record {
  accepted = λ m. m.gone;
  pending = λ m. m.waiting;
  write_some = λ m t w buf n v e. sealed_some m buf (bio_send calm t w buf).0 n e;
  write_blocked = λ m t w buf v e. sealed_blocked m buf (bio_send calm t w buf).0 e;
  write_refused = λ m t w buf v e. sealed-refused m buf (bio_send calm t w buf).0 e;
}

abbrev connection : Tls calm through
connection = record {
  tcp = adopt (some 3);
  state = record { gone = []; waiting = none };
  rx = codes "hello";
  rxpos = 3;
  handshaked = true;
  fatal = false;
  world = world;
}

polled :
    (poll calm through connection (peeks ∷ reads 9 ∷ asks ∷ reads 1 ∷ reads 9 ∷ [])).0
    ≡ codes "loABC"
unfolding poll read peek_byte glue bio_recv Net.read
polled = refl

poll-incoming_example :
    let r = poll calm through connection (peeks ∷ reads 9 ∷ asks ∷ reads 1 ∷ []) in
    HandsOut calm through 3 through_plain connection r.0 r.1
poll-incoming_example =
    poll-incoming calm through 3 through_plain connection (peeks ∷ reads 9 ∷ asks ∷ reads 1 ∷ [])
      refl

write-accepted_example :
    (n : ℕ) × (t : Tls calm through) × (write calm through 4 connection (codes "abc") ≡ some (n, t))
    × (n ≤ 3)
    × (t.state.gone ≡ take n (codes "abc"))
    × ((n ≡ 3) ⊎ ((t.fatal ≡ true) ⊎ (t.state.waiting ≡ some (drop n (codes "abc")))))
unfolding through_sends
write-accepted_example =
    write-accepted calm through through_sends 4 connection (codes "abc") refl tt

-- The connect behind a close says that it is connected.
reconnected : (connect still small 5 (close still small session) (codes "bbs") 23).0 ≡ true
unfolding connect close
reconnected = refl

connect-close_example :
    connected still small (connect still small 5 (close still small session) (codes "bbs") 23).1
    ≡ false
connect-close_example = connect-close still small 5 session (codes "bbs") 23

receive_two : (receive_all calm (adopt (some 3)) world (2 ∷ 5 ∷ [])).0 ≡ codes "ABC"
unfolding receive_all bio_recv Net.read
receive_two = refl

receive_all-stream_example :
    IsHanded calm calm_streams 3 world (receive_all calm (adopt (some 3)) world (2 ∷ 1 ∷ []))
receive_all-stream_example =
    receive_all-stream calm calm_streams 3 (2 ∷ 1 ∷ []) world (omega arith, (omega arith, tt))
