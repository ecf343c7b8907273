-- ===== src/Socks5/Counts.antt =====
-- The UDP side of ippop/socks5: useripcount.go, userudpcount.go, `handleSocks5Associate` and
-- `loadOrNewUserUDPServer` of socks5.go, and udp.go. A handler's two ends are two steps, since
-- between them it waits until the client closes its connection.
pub mod Listen
pub mod Effects
pub mod Associations
pub mod Forward
use titan_ipoverlay.Prelude.{
  ℕ, zero, suc, ◌+◌, ◌-◌, ◌≤◌, Bool, true, false, Option, none, some, List, [], ◌∷◌, ◌++◌, ltb, leb,
  ◌==◌, if◌then◌else◌,
}
use titan_ipoverlay.Prelude.Str.{Str}
use titan_ipoverlay.Prelude.Assoc.{Assoc, lookup, insert, remove}
use titan_ipoverlay.Prelude.Exec.{Result, ok, err}
use titan_ipoverlay.Socks5.Conn.{Error, no_udp_port, bad_address, auth_failed, forbidden_ip}
use titan_ipoverlay.Socks5.Ip
use titan_ipoverlay.Socks5.Ip.{Net}
use titan_ipoverlay.Socks5.Datagram.{Datagram, new_datagram_from_bytes, to_address}

-- A missing key of a Go map of numbers reads as 0.
abbrev pub value_or_0 : Option ℕ → ℕ
value_or_0 none = 0
value_or_0 (some n) = n

unfoldable pub get : Str → Assoc ℕ → ℕ
get key m = value_or_0 (lookup key m)

unfoldable pub incr : Str → Assoc ℕ → Assoc ℕ
unfolding get
incr key m = insert key (get key m + 1) m

-- The stored counts are positive, so that `v - 1` does not stop at 0.
put_or_delete : Str → ℕ → Assoc ℕ → Assoc ℕ
put_or_delete key v m = if leb v 0 then remove key m else insert key v m

unfoldable pub decr : Str → Assoc ℕ → Assoc ℕ
unfolding put_or_delete
decr key m = put_or_delete key (value_or_0 (lookup key m) - 1) m

pub record UdpServer : Type 0 where
  pub port : ℕ
  pub id : Str
  pub user : Str

pub record Server : Type 0 where
  pub user_ip : Assoc ℕ
  pub users : Assoc ℕ
  pub udp_servers : Assoc UdpServer

-- userUDPCount.decr, which stops the user's server when the last association is gone.
udp_decr : Str → ℕ → Server → Server
udp_decr user v s =
    if ltb 0 v
    then record s { users = insert user v s.users }
    else record s { users = remove user s.users; udp_servers = remove user s.udp_servers }

unfoldable pub user_udp_decr : Str → Server → Server
unfolding udp_decr
user_udp_decr user s = udp_decr user (value_or_0 (lookup user s.users) - 1) s

-- `listen`: `free` tells which ports can be bound. The rounds left are those up to the end port.
unfoldable pub listen_from : (ℕ → Bool) → ℕ → ℕ → Option ℕ
listen_from free zero port = none
listen_from free (suc rounds) port =
    let next = listen_from free rounds (port + 1) in if free port then some port else next

unfoldable pub listen : (ℕ → Bool) → ℕ → ℕ → Option ℕ
listen free start_port end_port = listen_from free (end_port + 1 - start_port) start_port

abbrev pub key_user_ip_count : Str → Str → Str
key_user_ip_count username src_ip = username ++ b':' ∷ src_ip

-- What an association finds: the free ports, the configured range, and an unused id.
pub record UdpEnv : Type 0 where
  pub free : ℕ → Bool
  pub port_start : ℕ
  pub port_end : ℕ
  pub fresh_id : Str

started : UdpEnv → Str → Option ℕ → Server → Result Error UdpServer × Server
started env username none s = (err no_udp_port, s)
started env username (some port) s =
    let server : UdpServer = record { port = port; id = env.fresh_id; user = username } in
    (ok server, record s { udp_servers = insert username server s.udp_servers })

load_or_new : UdpEnv → Str → Option UdpServer → Server → Result Error UdpServer × Server
unfolding started listen
load_or_new env username (some server) s = (ok server, s)
load_or_new env username none s =
    started env username (listen env.free env.port_start env.port_end) s

-- The two counts go up, and the user's server is found or started.
unfoldable pub associate_open : UdpEnv → Str → Str → Server → Result Error UdpServer × Server
unfolding load_or_new
associate_open env username src_ip s =
    load_or_new env username (lookup username s.udp_servers) (record s {
      user_ip = incr (key_user_ip_count username src_ip) s.user_ip;
      users = incr username s.users;
    })

-- The deferred calls, on every way out.
unfoldable pub associate_close : Str → Str → Server → Server
associate_close username src_ip s =
    let s' = user_udp_decr username s in
    record s' { user_ip = decr (key_user_ip_count username src_ip) s'.user_ip }

failed_closes : Str → Str → Result Error UdpServer × Server → Result Error UdpServer × Server
failed_closes username src_ip (ok server, s) = (ok server, s)
failed_closes username src_ip (err e, s) = (err e, associate_close username src_ip s)

-- handleSocks5Associate up to the point where it waits.
unfoldable pub associate_start : UdpEnv → Str → Str → Server → Result Error UdpServer × Server
unfolding failed_closes
associate_start env username src_ip s =
    failed_closes username src_ip (associate_open env username src_ip s)

-- HandleSocks5UDP with its arguments.
pub record UdpCall : Type 0 where
  pub server_id : Str
  pub src : Str
  pub dest : Str
  pub user_name : Str
  pub payload : Str

module _ (net : Net) (resolve : Str → Option Str) where
  to_allowed : UdpServer → Str → Str → Str → Option Str → Result Error UdpCall
  to_allowed udp src dest payload none = err bad_address
  to_allowed udp src dest payload (some ip) =
      if Ip.forbidden_ip ip
      then err forbidden_ip
      else ok (record {
        server_id = udp.id;
        src = src;
        dest = dest;
        user_name = udp.user;
        payload = payload;
      })

  to_dest : UdpServer → Str → Result Error Datagram → Result Error UdpCall
  unfolding to_allowed
  to_dest udp src (err e) = err e
  to_dest udp src (ok d) =
      let dest = to_address net d.atyp d.dst_addr d.dst_port in
      to_allowed udp src dest d.payload (resolve dest)

  -- `src_ip` is the text of the sender's address, `src` that of its address and port, and
  -- `resolve` is net.ResolveUDPAddr.
  unfoldable pub handle_udp_conn : Server → UdpServer → Str → Str → Str → Result Error UdpCall
  unfolding to_dest
  handle_udp_conn s udp src_ip src payload =
      if leb (get (key_user_ip_count udp.user src_ip) s.user_ip) 0
      then err auth_failed
      else to_dest udp src (new_datagram_from_bytes payload)
