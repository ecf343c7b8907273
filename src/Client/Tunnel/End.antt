-- ===== src/Client/Tunnel/End.antt =====
-- UDPProxy.serve of client/tunnel/udpproxy.go, and how the tunnel of client/tunnel/tunnel.go ends:
-- Destroy, the end of Serve and clearProxys.
pub mod Quiet
use titan_ipoverlay.Prelude.{ℕ, Bool, true, false, Option, none, some, List, [], ◌∷◌, if◌then◌else◌}
use titan_ipoverlay.Prelude.Str.{Str}
use titan_ipoverlay.Prelude.Assoc.{Assoc, lookup, insert, remove}
use titan_ipoverlay.Prelude.Exec.{Result, ok, err}
use titan_ipoverlay.Wire.{Pb, TunnelError, Outlet, Link, Written, close_link, Sock, close_sock}
use titan_ipoverlay.Client.Tunnel.{Tunnel, TunnelIo, TcpProxy, UdpProxy, on_outlet, close_by_server}
use titan_ipoverlay.Client.Tunnel.Messages.{on_proxy_udp_data_from_proxy}

udp_read_of : Pb → Str → Str → Option UdpProxy → Tunnel → Tunnel
udp_read_of pb id b none t = t
udp_read_of pb id b (some p) t = on_proxy_udp_data_from_proxy pb id b t

-- One round of UDPProxy.serve that reads a datagram.
unfoldable pub udp_read : Pb → Str → Str → Tunnel → Tunnel
unfolding udp_read_of
udp_read pb id b t = udp_read_of pb id b (lookup id t.proxy_udps) t

-- UDPProxy.serve's read fails, or its deadline passes.
unfoldable pub udp_end : Str → Tunnel → Tunnel
udp_end id t = record t { proxy_udps = remove id t.proxy_udps }

-- The proxies that Range visits, each destroyed.
close_all : Assoc (Unit {0}) → Tunnel → Tunnel
close_all [] t = t
close_all ((id, u) ∷ m) t = close_all m (close_by_server id t)

unfoldable pub clear_proxys : Tunnel → Tunnel
unfolding close_all
clear_proxys t = record (close_all t.proxy_sessions t) { proxy_sessions = []; proxy_udps = [] }

end_closed : Written Tunnel → Written Tunnel
end_closed (err e, t) = (err e, t)
end_closed (ok u, t) = (ok u, clear_proxys (record t { outlet = record t.outlet { conn = none } }))

-- The end of Serve: t.conn.Close(), t.conn = nil and onClose.
unfoldable pub serve_end : TunnelIo
unfolding end_closed
serve_end t = end_closed (on_outlet close_link t)

destroy_conn : Option Link → TunnelIo
destroy_conn none t = (ok tt, t)
destroy_conn (some l) t = on_outlet close_link (record t { is_destroy = true })

unfoldable pub destroy : TunnelIo
unfolding destroy_conn
destroy t = destroy_conn t.outlet.conn t

-- NewTunnel and Connect, once the websocket is there.
abbrev pub connected : Link → ℕ → Tunnel
connected l udp_timeout = record {
  outlet = record { conn = some l; outbox = [] };
  waitpone = 0;
  proxy_sessions = [];
  tcp = [];
  proxy_udps = [];
  started = [];
  is_destroy = false;
  udp_timeout = udp_timeout;
}
