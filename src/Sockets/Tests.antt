-- ===== src/Sockets/Tests.antt =====
-- A server that accepts a client while another client dials.
use bit_magic_zi_modem.Base.{ℕ, ◌≡◌, refl, false, true, none, some, [], codes, arith}
use bit_magic_zi_modem.Net.Toy.{calm, calm_descriptors}
use bit_magic_zi_modem.Net.Tcp as Tcp
use bit_magic_zi_modem.Net.Listener as Listener
use bit_magic_zi_modem.Net.Udp.{unbound}
use bit_magic_zi_modem.WifiClient as Client
use bit_magic_zi_modem.WifiServer.{of_port}
use bit_magic_zi_modem.WifiServer as Server
use bit_magic_zi_modem.Sockets.{
  Slot, client, server, datagrams, Sockets, own, with_clients, with_answer, with_server, listens,
  accepts, connects, here, next,
}
use bit_magic_zi_modem.Sockets.Separate.{IsValid, Reach-IsValid}

-- No object holds a descriptor, and none is open.
abbrev quiet : Sockets calm
quiet = record {
  clients = λ c. Tcp.unconnected;
  servers = λ l. of_port 23;
  udps = λ u. unbound;
  world = record { fresh = 3; live = λ j. false; coming = λ j. [] };
}

holds_none : (a : Slot) → own calm quiet a ≡ none
holds_none (client c) = refl
holds_none (server l) = refl
holds_none (datagrams u) = refl

no_handle : (a : Slot) (h : ℕ) → own calm quiet a ≡ some h → ⊥
no_handle a h e = ground (arith, holds_none a, e)

none_open : false ≡ true → ⊥
none_open e = cc

quiet-IsValid : IsValid calm calm_descriptors quiet
quiet-IsValid = record {
  alive = λ a h e. absurd (no_handle a h e);
  apart = λ a b h e f. absurd (no_handle a h e);
  held = λ h e. absurd (none_open e);
}

abbrev listening : Sockets calm
listening = with_server calm quiet 0 (Server.begin calm (quiet.servers 0) quiet.world)

abbrev dialling : Sockets calm
dialling =
    with_answer calm listening
      (Client.connect calm listening.clients listening.world 5 (some (codes "bbs")) 23)

abbrev serving : Sockets calm
serving =
    with_clients calm dialling
      (Server.available calm (dialling.servers 0) dialling.world dialling.clients 6)

empty_client : own calm dialling (client 6) ≡ none
unfolding Client.connect Server.begin Listener.listen Listener.close Tcp.connect Tcp.resolve_ipv4
    Tcp.close
empty_client = refl

Reach-IsValid_example : IsValid calm calm_descriptors serving
Reach-IsValid_example =
    Reach-IsValid calm calm_descriptors {s = quiet} {t = serving} quiet-IsValid (
      next (next (next here (listens quiet 0)) (connects listening 5 (some (codes "bbs")) 23))
        (accepts dialling 0 6 empty_client))

-- The server, the dialling client and the accepted one hold three descriptors.
three :
    (own calm serving (server 0) ≡ some 3)
    × (own calm serving (client 5) ≡ some 4)
    × (own calm serving (client 6) ≡ some 5)
unfolding Client.connect Server.begin Server.available Client.make_from Listener.listen
    Listener.close Listener.accept Listener.has_pending_client Tcp.connect Tcp.resolve_ipv4
    Tcp.close
three = (refl, refl, refl)
