-- ===== src/Ws/Tunnel/Messages.antt =====
-- The UDP proxies of ippop/ws/udpproxy.go, and the messages of a tunnel: onMessage in
-- ippop/ws/tunnel.go.
pub mod Quiet
use titan_ipoverlay.Prelude.{
  ℕ, suc, ◌+◌, ◌-◌, ◌*◌, ◌≡◌, Bool, true, false, Option, none, some, List, [], ◌∷◌, ◌++◌, length,
  ltb, ◌==◌, if◌then◌else◌,
}
use titan_ipoverlay.Prelude.Str.{Str}
use titan_ipoverlay.Prelude.Assoc.{Assoc, lookup, insert, remove}
use titan_ipoverlay.Prelude.Exec.{Result, ok, err, Exec, pure, raise, lift, ◌>>=◌, ◌>>◌}
use titan_ipoverlay.Socks5.Datagram.{new_datagram, bytes, Datagram}
use titan_ipoverlay.Socks5.Conn.{Error}
use titan_ipoverlay.Socks5.Ip.{Net}
use titan_ipoverlay.Wire.{
  Pb, Codec, Message, MessageType, command, proxy_session_create, proxy_session_data,
  proxy_session_close, proxy_udp_data, other_type, CreateSessionReply, UdpData, TunnelError,
  conn_nil, write_failed, marshal_failed, unmarshal_failed, no_session, bad_address, panicked,
  Outlet, Frame, ping, pong, Written, write_frame, send_message, close_link, Sock, write_sock,
  close_sock, took,
}
use titan_ipoverlay.Ws.Tunnel.{
  Tunnel, TunnelIo, TcpProxy, UdpInfo, UdpProxy, Proxy, tcp_proxy, udp_proxy, on_outlet, charge,
  on_proxy_session_create_reply, on_proxy_session_data_from_tunnel, on_proxy_session_close,
}

abbrev pub set_udp : Str → UdpProxy → Tunnel → Tunnel
set_udp id p t = record t { proxys = insert id (udp_proxy p) t.proxys }

-- proxy.conn.WriteToUDP
write_to_udp : Str → Str → UdpProxy → Written UdpProxy
write_to_udp b addr p =
    if p.writable == 0
    then (err write_failed, p)
    else (ok tt, record p { sent = p.sent ++ ((addr, b) ∷ []); writable = p.writable - 1 })

-- `resolve` is net.ResolveUDPAddr, which may fail.
module _ (pb : Pb) (net : Net) (resolve : Str → Bool) where
  src_datagram : Result Error Datagram → UdpProxy → Written UdpProxy
  unfolding write_to_udp
  src_datagram (err e) p = (err bad_address, p)
  src_datagram (ok d) p = write_to_udp (bytes d) p.udp_info.src p

  write_src : Str → UdpProxy → Written UdpProxy
  unfolding src_datagram
  write_src b p =
      if resolve p.udp_info.src
      then src_datagram (new_datagram net p.udp_info.dest b) p
      else (err bad_address, p)

  -- UDPProxy.writeToSrc
  unfoldable pub write_to_src : ℕ → Str → UdpProxy → Str → TunnelIo
  unfolding write_src
  write_to_src now id p b t =
      let (r, p') = write_src b (record p { active_time = now }) in
      (r, set_udp id p' (charge p.udp_info.user_name b t))

  udp_to_proxy : ℕ → Str → Str → Option Proxy → TunnelIo
  unfolding write_to_src
  udp_to_proxy now id b none t = (err no_session, t)
  udp_to_proxy now id b (some tcp_proxy) t = (err panicked, t)
  udp_to_proxy now id b (some (udp_proxy p)) t = write_to_src now id p b t

  unfoldable pub on_proxy_udp_data_from_tunnel : ℕ → Str → Str → TunnelIo
  unfolding udp_to_proxy
  on_proxy_udp_data_from_tunnel now id b t = udp_to_proxy now id b (lookup id t.proxys) t

  pub dispatch : ℕ → MessageType → Str → Str → TunnelIo
  dispatch now command id b t = (ok tt, t)
  dispatch now proxy_session_create id b t = on_proxy_session_create_reply pb id b t
  dispatch now proxy_session_data id b t = on_proxy_session_data_from_tunnel pb id b t
  dispatch now proxy_session_close id b t = on_proxy_session_close pb id t
  dispatch now proxy_udp_data id b t = on_proxy_udp_data_from_tunnel now id b t
  dispatch now (other_type n) id b t = (ok tt, t)

  on_decoded : ℕ → Option Message → TunnelIo
  unfolding dispatch
  on_decoded now none t = (err unmarshal_failed, t)
  on_decoded now (some m) t = dispatch now m.kind m.session_id m.payload t

  unfoldable pub on_message : ℕ → Str → TunnelIo
  unfolding on_decoded
  on_message now b t = on_decoded now (pb.message.unmarshal b) t
