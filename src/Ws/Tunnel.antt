-- ===== src/Ws/Tunnel.antt =====
-- ippop/ws/tunnel.go, tcpproxy.go and udpproxy.go: the server's end of a tunnel. Each goroutine is
-- cut where it waits: for the reply to a request, for bytes of the SOCKS5 client, for a message.
pub mod Accept
pub mod Messages
pub mod Effects
use titan_ipoverlay.Prelude.{
  ℕ, suc, ◌+◌, ◌-◌, ◌*◌, ◌≡◌, Bool, true, false, Option, none, some, List, [], ◌∷◌, ◌++◌, length,
  ltb, ◌==◌, if◌then◌else◌,
}
use titan_ipoverlay.Prelude.Str.{Str}
use titan_ipoverlay.Prelude.Assoc.{Assoc, lookup, insert, remove}
use titan_ipoverlay.Prelude.Exec.{Result, ok, err, Exec, pure, raise, lift, ◌>>=◌, ◌>>◌}
use titan_ipoverlay.Socks5.Datagram.{new_datagram, bytes, Datagram}
use titan_ipoverlay.Socks5.Conn.{Error}
use titan_ipoverlay.Socks5.Ip.{Net}
use titan_ipoverlay.Wire.{
  Pb, Codec, Message, MessageType, command, proxy_session_create, proxy_session_data,
  proxy_session_close, proxy_udp_data, other_type, CreateSessionReply, UdpData, TunnelError,
  conn_nil, write_failed, marshal_failed, unmarshal_failed, no_session, bad_address, panicked,
  Outlet, Frame, ping, pong, Written, write_frame, send_message, close_link, Sock, write_sock,
  close_sock, took,
}

-- The bytes of a SOCKS5 client's connection.
pub record TcpProxy : Type 0 where
  pub conn : Option Sock
  pub user_name : Str
  pub is_close_by_client : Bool

pub record UdpInfo : Type 0 where
  pub udp_server_id : Str
  pub src : Str
  pub dest : Str
  pub user_name : Str

-- `sent` are the datagrams that the proxy gave to its socks5.UDPConn, with their receivers, and
-- `writable` how many more it takes.
pub record UdpProxy : Type 0 where
  pub udp_info : UdpInfo
  pub active_time : ℕ
  pub timeout : ℕ
  pub sent : List (Str × Str)
  pub writable : ℕ

-- A value of the map `proxys`. A TCP proxy is a pointer: to the entry of `tcp` with its id.
pub data Proxy : Type 0 where
  tcp_proxy : Proxy
  udp_proxy : UdpProxy → Proxy

-- What the goroutine of requestCreateProxySession does: it writes the request, it waits in its
-- select, or it has received a payload.
pub data Wait : Type 0 where
  writing selecting : Wait
  replied : Str → Wait

-- `used` are the calls of tunMgr.traffic, the last one first.
pub record Tunnel : Type 0 where
  pub outlet : Outlet
  pub wait_pong : ℕ
  pub proxys : Assoc Proxy
  pub tcp : Assoc TcpProxy
  pub wait_list : Assoc Wait
  pub used : List (Str × ℕ)

abbrev pub TunnelIo : Type 0
TunnelIo = Tunnel → Written Tunnel

abbrev pub on_outlet : (Outlet → Written Outlet) → TunnelIo
on_outlet f t = let (r, o) = f t.outlet in (r, record t { outlet = o })

-- writePong and writePing
unfoldable pub write_pong : Str → TunnelIo
write_pong b = on_outlet (write_frame (pong b))

unfoldable pub write_ping : Str → TunnelIo
write_ping b = on_outlet (write_frame (ping b))

-- The ping handler, which only logs an error.
unfoldable pub on_ping : Str → Tunnel → Tunnel
unfolding write_pong
on_ping b t = (write_pong b t).1

unfoldable pub on_pong : Str → Tunnel → Tunnel
on_pong b t = if length b == 8 then record t { wait_pong = 0 } else t

-- keepalive; `now` is the encoded time.
unfoldable pub keepalive_close : Written Outlet → Tunnel → Result TunnelError (Unit {0}) × Tunnel
keepalive_close (ok u, o) t = (ok tt, record t { outlet = record o { conn = none } })
keepalive_close (err e, o) t = (err e, t)

unfoldable pub keepalive : Str → TunnelIo
unfolding keepalive_close
keepalive now t =
    if ltb 3 t.wait_pong
    then keepalive_close (close_link t.outlet) t
    else (ok tt, record (write_ping now t).1 { wait_pong = suc t.wait_pong })

abbrev pub charge : Str → Str → Tunnel → Tunnel
charge user_name b t = record t { used = (user_name, length b) ∷ t.used }

abbrev pub set_tcp : Str → TcpProxy → Tunnel → Tunnel
set_tcp id p t = record t { tcp = insert id p t.tcp }

abbrev pub set_conn : Str → TcpProxy → Sock → Tunnel → Tunnel
set_conn id p s t = set_tcp id (record p { conn = some s }) t

close_tcp : Str → TcpProxy → Option Sock → Tunnel → Tunnel
close_tcp id p none t = set_tcp id (record p { is_close_by_client = true }) t
close_tcp id p (some s) t = set_conn id (record p { is_close_by_client = true }) (close_sock s) t

close_by : Str → Option TcpProxy → Tunnel → Tunnel
unfolding close_tcp
close_by id none t = t
close_by id (some p) t = close_tcp id p p.conn t

-- TCPProxy.closeByClient, with close
unfoldable pub close_by_client : Str → Tunnel → Tunnel
unfolding close_by
close_by_client id t = close_by id (lookup id t.tcp) t

-- TCPProxy.write
write_to : Str → Str → TcpProxy → Option Sock → TunnelIo
write_to id b p none t = (err conn_nil, t)
write_to id b p (some s) t =
    let (r, s') = write_sock b s in (r, set_conn id p s' (charge p.user_name b t))

write_tcp_of : Str → Str → Option TcpProxy → TunnelIo
unfolding write_to
write_tcp_of id b none t = (err panicked, t)
write_tcp_of id b (some p) t = write_to id b p p.conn t

unfoldable pub write_tcp : Str → Str → TunnelIo
unfolding write_tcp_of
write_tcp id b t = write_tcp_of id b (lookup id t.tcp) t

module _ (pb : Pb) where
  -- onProxyTCPConnClose and onProxyDataFromProxy, which only log an error.
  unfoldable pub on_proxy_tcp_conn_close : Str → Tunnel → Tunnel
  on_proxy_tcp_conn_close id t =
      (on_outlet
        (send_message pb (record { kind = proxy_session_close; session_id = id; payload = [] }))
        t).1

  unfoldable pub on_proxy_data_from_proxy : Str → Str → Tunnel → Tunnel
  on_proxy_data_from_proxy id b t =
      (on_outlet
        (send_message pb (record { kind = proxy_session_data; session_id = id; payload = b })) t).1

  reply_to : Str → Str → Option Wait → TunnelIo
  reply_to id b none t = (err no_session, t)
  reply_to id b (some Wait.selecting) t =
      (ok tt, record t { wait_list = insert id (Wait.replied b) t.wait_list })
  reply_to id b (some _) t = (ok tt, t)

  -- A send on the unbuffered channel reaches only a goroutine that waits in its select.
  unfoldable pub on_proxy_session_create_reply : Str → Str → TunnelIo
  unfolding reply_to
  on_proxy_session_create_reply id b t = reply_to id b (lookup id t.wait_list) t

  close_proxy : Str → Option Proxy → TunnelIo
  close_proxy id none t = (err no_session, t)
  close_proxy id (some tcp_proxy) t = (ok tt, close_by_client id t)
  close_proxy id (some (udp_proxy p)) t = (err panicked, t)

  unfoldable pub on_proxy_session_close : Str → TunnelIo
  unfolding close_proxy
  on_proxy_session_close id t = close_proxy id (lookup id t.proxys) t

  data_to_proxy : Str → Str → Option Proxy → TunnelIo
  data_to_proxy id b none t = (err no_session, on_proxy_tcp_conn_close id t)
  data_to_proxy id b (some tcp_proxy) t = write_tcp id b t
  data_to_proxy id b (some (udp_proxy p)) t = (err panicked, t)

  unfoldable pub on_proxy_session_data_from_tunnel : Str → Str → TunnelIo
  unfolding data_to_proxy
  on_proxy_session_data_from_tunnel id b t = data_to_proxy id b (lookup id t.proxys) t
