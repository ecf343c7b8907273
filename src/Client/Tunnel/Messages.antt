-- ===== src/Client/Tunnel/Messages.antt =====
-- The messages of client/tunnel/tunnel.go (onTunnelMsg and its handlers), and the goroutines that
-- they start.
pub mod Quiet
pub mod Reads
pub mod Delivery
use titan_ipoverlay.Prelude.{
  ℕ, Bool, true, false, Option, none, some, List, [], ◌∷◌, ◌++◌, if◌then◌else◌,
}
use titan_ipoverlay.Prelude.Str.{Str}
use titan_ipoverlay.Prelude.Assoc.{Assoc, lookup, insert, remove}
use titan_ipoverlay.Prelude.Exec.{Result, ok, err}
use titan_ipoverlay.Wire.{
  Pb, Codec, Message, MessageType, command, proxy_session_create, proxy_session_data,
  proxy_session_close, proxy_udp_data, other_type, CreateSessionReply, UdpData, TunnelError,
  marshal_failed, unmarshal_failed, no_session, bad_address, panicked, Outlet, Frame, Written,
  send_message, close_link, Sock, close_sock, took,
}
use titan_ipoverlay.Client.Tunnel.{
  Tunnel, TunnelIo, TcpProxy, UdpProxy, on_outlet, set_conn, close_by_server, write_tcp, write_udp,
}

-- The network of the node: what net.DialTimeout gives for an address, net.DialUDP for one that
-- net.ResolveUDPAddr has resolved, and the texts of errors.
pub record Dialer : Type 0 where
  pub dial_tcp : Str → Result Str Sock
  pub dial_udp : Str → Option Sock
  pub bad_dest : Str

module _ (pb : Pb) where
  unfoldable pub send_to_pop : MessageType → Str → Str → TunnelIo
  send_to_pop kind id b t =
      on_outlet (send_message pb (record { kind = kind; session_id = id; payload = b })) t

  -- onProxyConnClose, onProxySessionDataFromProxy and onProxyUdpDataFromProxy, which only log errors.
  unfoldable pub on_proxy_conn_close : Str → Tunnel → Tunnel
  unfolding send_to_pop
  on_proxy_conn_close id t = (send_to_pop proxy_session_close id [] t).1

  unfoldable pub on_proxy_session_data_from_proxy : Str → Str → Tunnel → Tunnel
  unfolding send_to_pop
  on_proxy_session_data_from_proxy id b t = (send_to_pop proxy_session_data id b t).1

  unfoldable pub on_proxy_udp_data_from_proxy : Str → Str → Tunnel → Tunnel
  unfolding send_to_pop
  on_proxy_udp_data_from_proxy id b t = (send_to_pop proxy_udp_data id b t).1

  reply_of : Option Str → CreateSessionReply
  reply_of none = record { success = true; err_msg = [] }
  reply_of (some e) = record { success = false; err_msg = e }

  send_reply : Str → Option Str → TunnelIo
  unfolding send_to_pop
  send_reply id none t = (err marshal_failed, t)
  send_reply id (some b) t = send_to_pop proxy_session_create id b t

  -- With the text of the error, if there is one.
  unfoldable pub create_proxy_session_reply : Str → Option Str → TunnelIo
  unfolding send_reply reply_of
  create_proxy_session_reply id e t = send_reply id (pb.create_reply.marshal (reply_of e)) t

  module _ (net : Dialer) where
    dialed : Str → Result Str Sock → TunnelIo
    dialed id (err e) t = create_proxy_session_reply id (some e) t
    dialed id (ok s) t = (
      ok tt,
      (create_proxy_session_reply id none (record t {
        proxy_sessions = insert id tt t.proxy_sessions;
        tcp = insert id (record { conn = some s; is_close_by_server = false }) t.tcp;
      })).1,
    )

    with_dest : Str → Option Str → TunnelIo
    unfolding dialed
    with_dest id none t = create_proxy_session_reply id (some net.bad_dest) t
    with_dest id (some addr) t = dialed id (net.dial_tcp addr) t

    create_unless : Str → Str → Option (Unit {0}) → TunnelIo
    unfolding with_dest
    create_unless id b (some u) t = create_proxy_session_reply id none t
    create_unless id b none t = with_dest id (pb.dest_addr.unmarshal b) t

    -- The goroutine of createProxySession up to proxyConn.
    unfoldable pub create_proxy_session : Str → Str → TunnelIo
    unfolding create_unless
    create_proxy_session id b t = create_unless id b (lookup id t.proxy_sessions) t

    data_to_session : Str → Str → Option (Unit {0}) → TunnelIo
    data_to_session id b none t = (err no_session, t)
    data_to_session id b (some u) t = write_tcp id b t

    unfoldable pub on_proxy_session_data_from_tunnel : Str → Str → TunnelIo
    unfolding data_to_session
    on_proxy_session_data_from_tunnel id b t = data_to_session id b (lookup id t.proxy_sessions) t

    close_session : Str → Option (Unit {0}) → TunnelIo
    close_session id none t = (err no_session, t)
    close_session id (some u) t = (ok tt, close_by_server id t)

    unfoldable pub on_proxy_session_close : Str → TunnelIo
    unfolding close_session
    on_proxy_session_close id t = close_session id (lookup id t.proxy_sessions) t

    -- A write on a stored proxy, and the first write of a new one, which is stored if it succeeds.
    write_stored : Str → Str → UdpProxy → TunnelIo
    write_stored id b p t =
        let (r, c) = write_udp b p.conn in
        (r, record t { proxy_udps = insert id (record p { conn = c }) t.proxy_udps })

    store_new : Str → ℕ → Written (Option Sock) → TunnelIo
    store_new id timeout (err e, c) t = (err e, t)
    store_new id timeout (ok u, c) t = (
      ok tt,
      record t { proxy_udps = insert id (record { conn = c; timeout = timeout }) t.proxy_udps },
    )

    with_udp_conn : Str → Str → Option Sock → TunnelIo
    unfolding store_new
    with_udp_conn id b none t = (err bad_address, t)
    with_udp_conn id b (some s) t = store_new id t.udp_timeout (write_udp b (some s)) t

    udp_to : Str → UdpData → Option UdpProxy → TunnelIo
    unfolding write_stored with_udp_conn
    udp_to id d (some p) t = write_stored id d.data_bytes p t
    udp_to id d none t = with_udp_conn id d.data_bytes (net.dial_udp d.addr) t

    udp_decoded : Str → Option UdpData → TunnelIo
    unfolding udp_to
    udp_decoded id none t = (err unmarshal_failed, t)
    udp_decoded id (some d) t = udp_to id d (lookup id t.proxy_udps) t

    unfoldable pub on_proxy_udp_data_from_tunnel : Str → Str → TunnelIo
    unfolding udp_decoded
    on_proxy_udp_data_from_tunnel id b t = udp_decoded id (pb.udp.unmarshal b) t

    pub dispatch : MessageType → Str → Str → TunnelIo
    dispatch proxy_session_create id b t =
        (ok tt, record t { started = t.started ++ ((id, b) ∷ []) })
    dispatch proxy_session_data id b t = on_proxy_session_data_from_tunnel id b t
    dispatch proxy_session_close id b t = on_proxy_session_close id t
    dispatch proxy_udp_data id b t = on_proxy_udp_data_from_tunnel id b t
    dispatch _ id b t = (ok tt, t)

    on_decoded : Option Message → TunnelIo
    unfolding dispatch
    on_decoded none t = (err unmarshal_failed, t)
    on_decoded (some m) t = dispatch m.kind m.session_id m.payload t

    -- onTunnelMsg; a request starts a goroutine, which onProxySessionCreate does not wait for.
    unfoldable pub on_tunnel_msg : Str → TunnelIo
    unfolding on_decoded
    on_tunnel_msg b t = on_decoded (pb.message.unmarshal b) t

  read_conn : Str → Str → TcpProxy → Option Sock → Tunnel → Tunnel
  read_conn id b p none t = t
  read_conn id b p (some s) t = on_proxy_session_data_from_proxy id b (set_conn id p (took b s) t)

  read_proxy : Str → Str → Option TcpProxy → Tunnel → Tunnel
  unfolding read_conn
  read_proxy id b none t = t
  read_proxy id b (some p) t = read_conn id b p p.conn t

  -- One round of TCPProxy.proxyConn that reads bytes.
  unfoldable pub proxy_read : Str → Str → Tunnel → Tunnel
  unfolding read_proxy
  proxy_read id b t = read_proxy id b (lookup id t.tcp) t

  close_read : Str → TcpProxy → Option Sock → Tunnel → Tunnel
  close_read id p none t = t
  close_read id p (some s) t = set_conn id p (close_sock s) t

  end_proxy : Str → Option TcpProxy → Tunnel → Tunnel
  unfolding close_read
  end_proxy id none t = t
  end_proxy id (some p) t =
      let t' = if p.is_close_by_server then t else on_proxy_conn_close id t in
      let t'' = close_read id p p.conn t' in
      record t'' { proxy_sessions = remove id t''.proxy_sessions }

  -- TCPProxy.proxyConn's read fails, and it ends.
  unfoldable pub proxy_end : Str → Tunnel → Tunnel
  unfolding end_proxy
  proxy_end id t = end_proxy id (lookup id t.tcp) t
