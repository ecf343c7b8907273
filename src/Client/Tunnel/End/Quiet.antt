-- ===== src/Client/Tunnel/End/Quiet.antt =====
-- UDP proxies and the end of the node's end of a tunnel leave a session alone, but for closing it.
use titan_ipoverlay.Prelude.{refl, Option, none, some, [], ◌∷◌}
use titan_ipoverlay.Prelude.Str.{Str}
use titan_ipoverlay.Prelude.Assoc.{Assoc, lookup}
use titan_ipoverlay.Prelude.Exec.{ok, err}
use titan_ipoverlay.Wire.{Pb, proxy_udp_data, Outlet, Written, Link, close_link}
use titan_ipoverlay.Wire.Session.{Silent, close_link-Silent}
use titan_ipoverlay.Wire.View.{Quiet-refl}
use titan_ipoverlay.Client.Tunnel.{Tunnel, UdpProxy, close_by_server}
use titan_ipoverlay.Client.Tunnel.Effects.{
  NodeQuiet, then-NodeQuiet, outlet-NodeQuiet, close_by_server-NodeQuiet,
}
use titan_ipoverlay.Client.Tunnel.Messages.{on_proxy_udp_data_from_proxy}
use titan_ipoverlay.Client.Tunnel.Messages.Quiet.{send-NodeQuiet}
use titan_ipoverlay.Client.Tunnel.End.{
  udp_read, udp_read_of, udp_end, close_all, clear_proxys, serve_end, end_closed, destroy,
  destroy_conn,
}

module _ (pb : Pb) (id : Str) where
  pub udp_read-NodeQuiet : (t : Tunnel) (j b : Str) → NodeQuiet pb id t (udp_read pb j b t)
  unfolding udp_read udp_read_of on_proxy_udp_data_from_proxy
  udp_read-NodeQuiet t j b = go (lookup j t.proxy_udps)
    where
      go : (o : Option UdpProxy) → NodeQuiet pb id t (udp_read_of pb j b o t)
      go none = Quiet-refl pb id _
      go (some p) = send-NodeQuiet pb id t proxy_udp_data j b refl refl

  pub udp_end-NodeQuiet : (t : Tunnel) (j : Str) → NodeQuiet pb id t (udp_end j t)
  unfolding udp_end
  udp_end-NodeQuiet t j = Quiet-refl pb id _

  all-NodeQuiet : (m : Assoc (Unit {0})) (t : Tunnel) → NodeQuiet pb id t (close_all m t)
  unfolding close_all
  all-NodeQuiet [] t = Quiet-refl pb id _
  all-NodeQuiet ((j, u) ∷ m) t =
      then-NodeQuiet pb id t (close_by_server j t) (close_all m (close_by_server j t))
        (close_by_server-NodeQuiet pb id t j) (all-NodeQuiet m (close_by_server j t))

  clear-NodeQuiet : (t : Tunnel) → NodeQuiet pb id t (clear_proxys t)
  unfolding clear_proxys lookup
  clear-NodeQuiet t =
      let q : NodeQuiet pb id t (close_all t.proxy_sessions t) = all-NodeQuiet t.proxy_sessions t in
      record {
        calm = q.calm;
        still_member = λ h. absurd (cc h);
        unasked = q.unasked;
        silent = q.silent;
      }

  pub serve_end-NodeQuiet : (t : Tunnel) → NodeQuiet pb id t (serve_end t).1
  unfolding serve_end end_closed
  serve_end-NodeQuiet t = go (close_link t.outlet) (close_link-Silent pb id t.outlet)
    where
      go :
          (o : Written Outlet)
          → Silent pb id t.outlet o.1
          → NodeQuiet pb id t (end_closed (o.0, record t { outlet = o.1 })).1
      go (err e, o) s = outlet-NodeQuiet pb id t o s
      go (ok u, o) s =
          let w = record t { outlet = record o { conn = none } } in
          then-NodeQuiet pb id t w (clear_proxys w)
            (outlet-NodeQuiet pb id t (record o { conn = none })
              (record {
                link = λ h. absurd (cc h);
                no_bytes = s.no_bytes;
                no_request = s.no_request;
              }))
            (clear-NodeQuiet w)

  pub destroy-NodeQuiet : (t : Tunnel) → NodeQuiet pb id t (destroy t).1
  unfolding destroy destroy_conn
  destroy-NodeQuiet t = go t.outlet.conn
    where
      go : (l : Option Link) → NodeQuiet pb id t (destroy_conn l t).1
      go none = Quiet-refl pb id _
      go (some l) = outlet-NodeQuiet pb id t _ (close_link-Silent pb id t.outlet)
