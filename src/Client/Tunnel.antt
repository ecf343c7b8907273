-- ===== src/Client/Tunnel.antt =====
-- client/tunnel/tunnel.go, tcpproxy.go and udpproxy.go: the node's end of a tunnel. Each goroutine
-- is cut where it waits: for a message, for a connection to be made, for bytes of a destination.
pub mod Effects
pub mod Messages
pub mod End
use titan_ipoverlay.Prelude.{
  ℕ, suc, Bool, true, false, Option, none, some, List, [], ◌∷◌, ltb, if◌then◌else◌,
}
use titan_ipoverlay.Prelude.Str.{Str}
use titan_ipoverlay.Prelude.Assoc.{Assoc, lookup, insert, remove}
use titan_ipoverlay.Prelude.Exec.{Result, ok, err}
use titan_ipoverlay.Wire.{
  Pb, Codec, Message, MessageType, command, proxy_session_create, proxy_session_data,
  proxy_session_close, proxy_udp_data, other_type, CreateSessionReply, UdpData, TunnelError,
  conn_nil, write_failed, marshal_failed, unmarshal_failed, no_session, bad_address, panicked,
  Outlet, Link, Frame, ping, pong, Written, write_frame, send_message, close_link, Sock, write_sock,
  close_sock, took,
}

pub record TcpProxy : Type 0 where
  pub conn : Option Sock
  pub is_close_by_server : Bool

pub record UdpProxy : Type 0 where
  pub conn : Option Sock
  pub timeout : ℕ

-- The values of the map `proxy_sessions` are pointers: to the entries of `tcp` with their ids.
-- `started` are the goroutines of createProxySession that have not run, with the session and the
-- payload of the request.
pub record Tunnel : Type 0 where
  pub outlet : Outlet
  pub waitpone : ℕ
  pub proxy_sessions : Assoc (Unit {0})
  pub tcp : Assoc TcpProxy
  pub proxy_udps : Assoc UdpProxy
  pub started : List (Str × Str)
  pub is_destroy : Bool
  pub udp_timeout : ℕ

abbrev pub TunnelIo : Type 0
TunnelIo = Tunnel → Written Tunnel

abbrev pub on_outlet : (Outlet → Written Outlet) → TunnelIo
on_outlet f t = let (r, o) = f t.outlet in (r, record t { outlet = o })

unfoldable pub write_pong : Str → TunnelIo
write_pong b = on_outlet (write_frame (pong b))

unfoldable pub write_ping : Str → TunnelIo
write_ping b = on_outlet (write_frame (ping b))

unfoldable pub on_pong : Str → Tunnel → Tunnel
on_pong b t = record t { waitpone = 0 }

-- One tick of keepalive, whether it goes on, and the state; `now` is the encoded time.
unfoldable pub keepalive_tick : Str → Option Link → Tunnel → Bool × Tunnel
keepalive_tick now none t = (false, t)
keepalive_tick now (some l) t = (
  true,
  if ltb 3 t.waitpone
      then (on_outlet close_link t).1
      else (write_ping now (record t { waitpone = suc t.waitpone })).1,
)

unfoldable pub keepalive : Str → Tunnel → Bool × Tunnel
unfolding keepalive_tick
keepalive now t = keepalive_tick now t.outlet.conn t

abbrev pub set_tcp : Str → TcpProxy → Tunnel → Tunnel
set_tcp id p t = record t { tcp = insert id p t.tcp }

abbrev pub set_conn : Str → TcpProxy → Sock → Tunnel → Tunnel
set_conn id p s t = set_tcp id (record p { conn = some s }) t

close_by : Str → TcpProxy → Option Sock → Tunnel → Tunnel
close_by id p none t = set_tcp id (record p { is_close_by_server = true }) t
close_by id p (some s) t = set_conn id (record p { is_close_by_server = true }) (close_sock s) t

close_tcp_of : Str → Option TcpProxy → Tunnel → Tunnel
unfolding close_by
close_tcp_of id none t = t
close_tcp_of id (some p) t = close_by id p p.conn t

-- TCPProxy.closeByServer
unfoldable pub close_by_server : Str → Tunnel → Tunnel
unfolding close_tcp_of
close_by_server id t = close_tcp_of id (lookup id t.tcp) t

write_to : Str → Str → TcpProxy → Option Sock → TunnelIo
write_to id b p none t = (err conn_nil, t)
write_to id b p (some s) t = let (r, s') = write_sock b s in (r, set_conn id p s' t)

write_tcp_of : Str → Str → Option TcpProxy → TunnelIo
unfolding write_to
write_tcp_of id b none t = (err panicked, t)
write_tcp_of id b (some p) t = write_to id b p p.conn t

-- TCPProxy.write
unfoldable pub write_tcp : Str → Str → TunnelIo
unfolding write_tcp_of
write_tcp id b t = write_tcp_of id b (lookup id t.tcp) t

-- UDPProxy.write; a deadline cannot be set on a closed connection.
pub write_udp : Str → Option Sock → Written (Option Sock)
write_udp b none = (err conn_nil, none)
write_udp b (some s) = let (r, s') = write_sock b s in (r, some s')
