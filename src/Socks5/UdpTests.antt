-- ===== src/Socks5/UdpTests.antt =====
-- Runs of the datagrams and the UDP associations of ippop/socks5 on concrete data.
use titan_ipoverlay.Socks5.Counts.Listen.{Lowest, listen-Lowest}
use titan_ipoverlay.Socks5.Counts.{listen}
use titan_ipoverlay.Prelude.{arith}
use titan_ipoverlay.Prelude.{
  ℕ, ◌≡◌, ◌<◌, refl, Bool, true, false, Option, none, some, [], ◌∷◌, ◌++◌, arith, ◌==◌,
  if◌then◌else◌,
}
use titan_ipoverlay.Prelude.Str.{Str, codes, str_eq}
use titan_ipoverlay.Prelude.Exec.{ok}
use titan_ipoverlay.Prelude.Assoc.{lookup, insert}
use titan_ipoverlay.Prelude.Decimal.{show_nat}
use titan_ipoverlay.Socks5.Ip.{v4_in_v6_prefix, to4, forbidden_ip}
use titan_ipoverlay.Socks5.Datagram.{
  Datagram, bytes, new_datagram, new_datagram_from_bytes, to_address, get_uint16,
}
use titan_ipoverlay.Socks5.Datagram.Parse.{IsWellFormed, bytes_of_parsed, parsed_of_bytes}
use titan_ipoverlay.Socks5.Datagram.Build.{port_number, new_datagram-domain}
use titan_ipoverlay.Socks5.Counts.{
  Server, UdpServer, UdpEnv, UdpCall, listen, listen_from, associate_start, associate_open, incr,
  key_user_ip_count, handle_udp_conn, get,
}
use titan_ipoverlay.Socks5.Counts.Effects.{Opens, of_key}
use titan_ipoverlay.Socks5.Counts.Associations.{
  Inv, Step, starts, Reach, boot, next, no_server, Step-Inv, Reach-Inv,
}
use titan_ipoverlay.Socks5.Counts.Forward.{Forwards, handle_udp_conn-associated}
use titan_ipoverlay.Socks5.Samples.{
  split_colon, test_datagram, test_datagram-IsWellFormed, test_net,
}

parsed_of_bytes_example : new_datagram_from_bytes (bytes test_datagram) ≡ ok test_datagram
parsed_of_bytes_example = parsed_of_bytes test_datagram test_datagram-IsWellFormed

bytes_of_parsed_example : (bytes test_datagram ≡ bytes test_datagram) × IsWellFormed test_datagram
bytes_of_parsed_example =
    bytes_of_parsed (bytes test_datagram) test_datagram
      (parsed_of_bytes test_datagram test_datagram-IsWellFormed)

splits_a :
    test_net.split_host_port (codes "dns.example:53") ≡ some (codes "dns.example", codes "53")
unfolding split_colon
splits_a = refl

splits_b : test_net.split_host_port (codes "8.8.8.8:53") ≡ some (codes "8.8.8.8", codes "53")
unfolding split_colon
splits_b = refl

unknown_a : test_net.parse_ip (codes "dns.example") ≡ none
unfolding str_eq
unknown_a = refl

known_b : test_net.parse_ip (codes "8.8.8.8") ≡ some (v4_in_v6_prefix ++ 8 ∷ 8 ∷ 8 ∷ 8 ∷ [])
unfolding str_eq
known_b = refl

new_datagram-domain_example :
    (d : Datagram) × (new_datagram test_net (codes "dns.example:53") (42 ∷ []) ≡ ok d)
    × (new_datagram_from_bytes (bytes d) ≡ ok d)
    × (to_address test_net d.atyp d.dst_addr d.dst_port
        ≡ test_net.join_host_port (11 ∷ codes "dns.example") (show_nat (port_number (codes "53"))))
new_datagram-domain_example =
    new_datagram-domain test_net (codes "dns.example:53") (codes "dns.example") (codes "53")
      (42 ∷ []) splits_a (omega arith) unknown_a (omega arith) (omega arith)

-- A machine on which the ports from 2001 on are free.
above_2000 : ℕ → Bool
above_2000 p = if p == 2000 then false else true

abbrev test_udp_env : UdpEnv
test_udp_env = record {
  free = above_2000;
  port_start = 2000;
  port_end = 2010;
  fresh_id = codes "id-1";
}

abbrev test_udp : UdpServer
test_udp = record { port = 2001; id = codes "id-1"; user = codes "alice" }

abbrev one_open : Server
one_open = record {
  user_ip = (codes "alice:1.2.3.4", 1) ∷ [];
  users = (codes "alice", 1) ∷ [];
  udp_servers = (codes "alice", test_udp) ∷ [];
}

abbrev one_opens : Opens
one_opens = (codes "alice", codes "1.2.3.4") ∷ []

first_start :
    associate_start test_udp_env (codes "alice") (codes "1.2.3.4") no_server
    ≡ (ok test_udp, one_open)
unfolding associate_start associate_open incr listen listen_from above_2000 get insert lookup str_eq
first_start = refl

first-Step : Step no_server [] one_open one_opens
first-Step = starts test_udp_env (codes "alice") (codes "1.2.3.4") test_udp first_start refl

first-Reach : Reach one_open one_opens
first-Reach = next no_server [] one_open one_opens (boot no_server [] refl refl) first-Step

Step-Inv_example : Inv one_open one_opens
Step-Inv_example =
    Step-Inv no_server [] one_open one_opens first-Step
      (Reach-Inv no_server [] (boot no_server [] refl refl))

Reach-Inv_example : Inv one_open one_opens
Reach-Inv_example = Reach-Inv one_open one_opens first-Reach

-- Every name resolves to 8.8.8.8.
abbrev test_resolve : Str → Option Str
test_resolve dest = some (8 ∷ 8 ∷ 8 ∷ 8 ∷ [])

abbrev test_call : UdpCall
test_call = record {
  server_id = codes "id-1";
  src = codes "1.2.3.4:5";
  dest = codes "8.8.8.8:53";
  user_name = codes "alice";
  payload = 42 ∷ [];
}

test_forwarded :
    handle_udp_conn test_net test_resolve one_open test_udp
      (codes "1.2.3.4")
      (codes "1.2.3.4:5")
      (bytes test_datagram)
    ≡ ok test_call
unfolding handle_udp_conn get lookup str_eq to_address forbidden_ip to4 show_nat get_uint16
test_forwarded = rw (parsed_of_bytes test_datagram test_datagram-IsWellFormed) refl

handle_udp_conn-associated_example :
    (0 < of_key (key_user_ip_count test_udp.user (codes "1.2.3.4")) one_opens)
    × Forwards test_net test_resolve test_udp test_call
handle_udp_conn-associated_example =
    handle_udp_conn-associated test_net test_resolve one_open one_opens test_udp (codes "1.2.3.4")
      (codes "1.2.3.4:5") (bytes test_datagram) test_call first-Reach test_forwarded

listen-Lowest_example : Lowest above_2000 2000 2011 (listen above_2000 2000 2010)
listen-Lowest_example = listen-Lowest above_2000 2000 2010 (omega arith)
