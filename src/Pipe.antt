-- ===== src/Pipe.antt =====
-- A server's tunnel and the node at its other end, over a websocket that keeps the order of frames:
-- ippop/ws/tunnel.go and client/tunnel/tunnel.go together.
pub mod Carries
pub mod Steps
pub mod Silence
pub mod Samples
mod Tests
use titan_ipoverlay.Prelude.{
  ℕ, ◌≡◌, Bool, true, false, Option, none, some, List, [], ◌∷◌, ◌++◌, if◌then◌else◌,
}
use titan_ipoverlay.Prelude.Str.{Str, str_eq}
use titan_ipoverlay.Prelude.Assoc.{lookup}
use titan_ipoverlay.Socks5.Ip.{Net}
use titan_ipoverlay.Wire.{Pb, Frame, binary, ping, pong, Sock, Written, TunnelError}
use titan_ipoverlay.Ws.Tunnel
use titan_ipoverlay.Ws.Tunnel.{UdpInfo}
use titan_ipoverlay.Ws.Tunnel.{
  Tunnel as PopTunnel, TcpProxy as PopProxy, on_ping, on_pong as pop_on_pong,
  keepalive as pop_keepalive,
}
use titan_ipoverlay.Ws.Tunnel.Messages.{on_message}
use titan_ipoverlay.Ws.Tunnel.Accept.{
  TargetInfo, request_session, wait_reply, give_up, accept_reply, store_proxy,
  proxy_read as pop_read, proxy_end as pop_end, accept_socks5_udp_data, wait_timeout,
  serve_end as pop_serve_end,
}
use titan_ipoverlay.Client.Tunnel.{
  Tunnel as NodeTunnel, TcpProxy as NodeProxy, write_pong, on_pong as node_on_pong,
  keepalive as node_keepalive,
}
use titan_ipoverlay.Client.Tunnel.Messages.{
  Dialer, on_tunnel_msg, create_proxy_session, proxy_read as node_read, proxy_end as node_end,
}
use titan_ipoverlay.Client.Tunnel.End.{udp_read, udp_end, destroy, serve_end as node_serve_end}

pub record System : Type 0 where
  pub pop : PopTunnel
  pub node : NodeTunnel

-- What both ends use of their surroundings: the encoders, Go's package net, whether
-- net.ResolveUDPAddr succeeds, the network of the node, and uuid.NewSHA1.
pub record Env : Type 0 where
  pub pb : Pb
  pub net : Net
  pub resolve : Str → Bool
  pub dialer : Dialer
  pub session_of : Str → Str

module _ (e : Env) where
  -- A frame that arrives; the websocket answers pings and pongs by the handlers that were set.
  unfoldable pub node_frame : Frame → NodeTunnel → NodeTunnel
  node_frame (binary b) t = (on_tunnel_msg e.pb e.dialer b t).1
  node_frame (ping b) t = (write_pong b t).1
  node_frame (pong b) t = node_on_pong b t

  unfoldable pub pop_frame : ℕ → Frame → PopTunnel → PopTunnel
  pop_frame now (binary b) t = (on_message e.pb e.net e.resolve now b t).1
  pop_frame now (ping b) t = on_ping b t
  pop_frame now (pong b) t = pop_on_pong b t
