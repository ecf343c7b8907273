-- ===== src/Ws/Tunnel/Accept.antt =====
-- The goroutines of ippop/ws that start at a tunnel: acceptSocks5TCPConn up to its reply, from the
-- reply on, and its proxyConn; acceptSocks5UDPData and waitTimeout; and the end of serve.
pub mod Quiet
use titan_ipoverlay.Prelude.{
  ℕ, suc, ◌+◌, ◌-◌, ◌*◌, ◌≡◌, Bool, true, false, Option, none, some, List, [], ◌∷◌, ◌++◌, length,
  ltb, ◌==◌, if◌then◌else◌,
}
use titan_ipoverlay.Prelude.Str.{Str, codes}
use titan_ipoverlay.Prelude.Assoc.{Assoc, lookup, insert, remove}
use titan_ipoverlay.Prelude.Decimal.{show_nat}
use titan_ipoverlay.Prelude.Exec.{Result, ok, err}
use titan_ipoverlay.Wire.{
  Pb, Codec, Message, proxy_session_create, proxy_udp_data, CreateSessionReply, UdpData,
  TunnelError, write_failed, marshal_failed, unmarshal_failed, timed_out, refused, panicked, Outlet,
  Link, Frame, Written, write_frame, send_message, close_link, Sock, close_sock, took,
}
use titan_ipoverlay.Ws.Tunnel.{
  Tunnel, TunnelIo, TcpProxy, UdpInfo, UdpProxy, Proxy, tcp_proxy, udp_proxy, Wait, writing,
  selecting, replied, on_outlet, charge, set_tcp, set_conn, on_proxy_tcp_conn_close,
  on_proxy_data_from_proxy,
}
use titan_ipoverlay.Ws.Tunnel.Messages.{set_udp}

abbrev pub stop_waiting : Str → Tunnel → Tunnel
stop_waiting id t = record t { wait_list = remove id t.wait_list }

-- What acceptSocks5TCPConn uses of a SocksTargetInfo.
pub record TargetInfo : Type 0 where
  pub domain_name : Str
  pub port : ℕ
  pub user_name : Str
  pub extra_bytes : Str

abbrev pub target_addr : TargetInfo → Str
target_addr i = i.domain_name ++ (codes ":" ++ show_nat i.port)

map_option : {A B : Type 0} → (A → B) → Option A → Option B
map_option f none = none
map_option f (some a) = some (f a)

module _ (pb : Pb) where
  forget_on_error : Str → Written Tunnel → Written Tunnel
  forget_on_error id (ok u, t) = (ok u, t)
  forget_on_error id (err e, t) = (err e, stop_waiting id t)

  request_bytes : Str → Option Str → TunnelIo
  unfolding forget_on_error
  request_bytes id none t = (err marshal_failed, t)
  request_bytes id (some b) t = forget_on_error id (
      on_outlet (write_frame (Frame.binary b))
        (record t { wait_list = insert id writing t.wait_list }))

  request_payload : Str → Option Str → TunnelIo
  unfolding request_bytes
  request_payload id none t = (err marshal_failed, t)
  request_payload id (some b) t =
      request_bytes id
        (pb.message.marshal (record { kind = proxy_session_create; session_id = id; payload = b }))
        t

  -- acceptSocks5TCPConn up to the select: onClientCreateByDomain and requestCreateProxySession.
  unfoldable pub request_session : Str → TargetInfo → TunnelIo
  unfolding request_payload
  request_session id i t = request_payload id (pb.dest_addr.marshal (target_addr i)) t

  -- The requesting goroutine reaches its select.
  enter_select : Str → Option Wait → Tunnel → Tunnel
  enter_select id (some writing) t = record t { wait_list = insert id selecting t.wait_list }
  enter_select id _ t = t

  unfoldable pub wait_reply : Str → Tunnel → Tunnel
  unfolding enter_select
  wait_reply id t = enter_select id (lookup id t.wait_list) t

  unfoldable pub give_up : Str → TunnelIo
  give_up id t = (err timed_out, stop_waiting id t)

  send_extra : Str → Str → Tunnel → Tunnel
  send_extra id [] t = t
  send_extra id (x ∷ xs) t = on_proxy_data_from_proxy pb id (x ∷ xs) t

  with_answer : Str → TargetInfo → Option CreateSessionReply → TunnelIo
  unfolding send_extra
  with_answer id i none t = (err unmarshal_failed, t)
  with_answer id i (some r) t =
      if r.success then (ok tt, send_extra id i.extra_bytes t) else (err (refused r.err_msg), t)

  with_wait : Str → TargetInfo → Option Wait → TunnelIo
  unfolding with_answer
  with_wait id i (some (replied b)) t =
      with_answer id i (pb.create_reply.unmarshal b) (stop_waiting id t)
  with_wait id i _ t = (err timed_out, t)

  -- acceptSocks5TCPConn once its channel has given a payload, up to the bytes that came with the
  -- request.
  unfoldable pub accept_reply : Str → TargetInfo → TunnelIo
  unfolding with_wait
  accept_reply id i t = with_wait id i (lookup id t.wait_list) t

  -- newTCPProxy, and proxys.Store
  unfoldable pub store_proxy : Str → TargetInfo → Sock → Tunnel → Tunnel
  store_proxy id i conn t = record t {
    proxys = insert id tcp_proxy t.proxys;
    tcp =
        insert id (record { conn = some conn; user_name = i.user_name; is_close_by_client = false })
          t.tcp;
  }

  read_conn : Str → Str → TcpProxy → Option Sock → Tunnel → Tunnel
  read_conn id b p none t = t
  read_conn id b p (some s) t =
      on_proxy_data_from_proxy pb id b (charge p.user_name b (set_conn id p (took b s) t))

  read_proxy : Str → Str → Option TcpProxy → Tunnel → Tunnel
  unfolding read_conn
  read_proxy id b none t = t
  read_proxy id b (some p) t = read_conn id b p p.conn t

  -- One round of proxyConn that reads bytes.
  unfoldable pub proxy_read : Str → Str → Tunnel → Tunnel
  unfolding read_proxy
  proxy_read id b t = read_proxy id b (lookup id t.tcp) t

  close_read : Str → TcpProxy → Option Sock → Tunnel → Tunnel
  close_read id p none t = t
  close_read id p (some s) t = set_conn id p (close_sock s) t

  end_proxy : Str → Option TcpProxy → Tunnel → Tunnel
  unfolding close_read
  end_proxy id none t = t
  end_proxy id (some p) t =
      let t' = if p.is_close_by_client then t else on_proxy_tcp_conn_close pb id t in
      let t'' = close_read id p p.conn t' in record t'' { proxys = remove id t''.proxys }

  -- proxyConn's read fails: it ends, and acceptSocks5TCPConn with it.
  unfoldable pub proxy_end : Str → Tunnel → Tunnel
  unfolding end_proxy
  proxy_end id t = end_proxy id (lookup id t.tcp) t

  udp_bytes : Str → Option Str → TunnelIo
  udp_bytes id none t = (err marshal_failed, t)
  udp_bytes id (some b) t =
      on_outlet (send_message pb (record { kind = proxy_udp_data; session_id = id; payload = b })) t

  -- UDPProxy.writeToDest
  unfoldable pub write_to_dest : ℕ → Str → UdpProxy → Str → TunnelIo
  unfolding udp_bytes
  write_to_dest now id p b t =
      udp_bytes id (pb.udp.marshal (record { addr = p.udp_info.dest; data_bytes = b }))
        (charge p.udp_info.user_name b (set_udp id (record p { active_time = now }) t))

  udp_data_of : ℕ → ℕ → Str → UdpInfo → ℕ → Str → Option Proxy → TunnelIo
  unfolding write_to_dest
  udp_data_of now timeout id i writable b (some (udp_proxy p)) t = write_to_dest now id p b t
  udp_data_of now timeout id i writable b (some tcp_proxy) t = (err panicked, t)
  udp_data_of now timeout id i writable b none t =
      let p : UdpProxy = record {
        udp_info = i;
        active_time = now;
        timeout = timeout;
        sent = [];
        writable = writable;
      } in
      write_to_dest now id p b (set_udp id p t)

  -- acceptSocks5UDPData; `session_of` is uuid.NewSHA1, and `writable` how many datagrams the
  -- UDP connection takes.
  unfoldable pub accept_socks5_udp_data : (Str → Str) → ℕ → ℕ → UdpInfo → ℕ → Str → TunnelIo
  unfolding udp_data_of
  accept_socks5_udp_data session_of now timeout i writable b t =
      let id = session_of (i.udp_server_id ++ (i.src ++ i.dest)) in
      udp_data_of now timeout id i writable b (lookup id t.proxys) t

  expire : ℕ → Str → Option Proxy → Tunnel → Tunnel
  expire now id (some (udp_proxy p)) t =
      if ltb (p.timeout * 1000) (now - p.active_time)
      then record t { proxys = remove id t.proxys }
      else t
  expire now id _ t = t

  -- One round of waitTimeout, with times in milliseconds.
  unfoldable pub wait_timeout : ℕ → Str → Tunnel → Tunnel
  unfolding expire
  wait_timeout now id t = expire now id (lookup id t.proxys) t

  close_entry : Proxy → Str → Option TcpProxy → Assoc TcpProxy → Assoc TcpProxy
  unfolding map_option
  close_entry tcp_proxy id (some p) tcp =
      insert id (record p { conn = map_option close_sock p.conn }) tcp
  close_entry _ id _ tcp = tcp

  close_all : Assoc Proxy → Assoc TcpProxy → Assoc TcpProxy
  unfolding close_entry
  close_all [] tcp = tcp
  close_all ((id, p) ∷ m) tcp = close_all m (close_entry p id (lookup id tcp) tcp)

  -- clearProxys
  unfoldable pub clear_proxys : Tunnel → Tunnel
  unfolding close_all
  clear_proxys t = record t { proxys = []; tcp = close_all t.proxys t.tcp }

  -- The end of serve.
  unfoldable pub serve_end : Tunnel → Tunnel
  serve_end t = clear_proxys (record t { outlet = record t.outlet { conn = none } })

-- newTunnel over a websocket.
abbrev pub new_tunnel : Link → Tunnel
new_tunnel l = record {
  outlet = record { conn = some l; outbox = [] };
  wait_pong = 0;
  proxys = [];
  tcp = [];
  wait_list = [];
  used = [];
}
