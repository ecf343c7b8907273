-- ===== src/Client/Tunnel/Messages/Reads.antt =====
-- The rounds and the end of proxyConn at the node's end of a tunnel.
use titan_ipoverlay.Prelude.{
  ◌≡◌, refl, ap, ◌∙◌, Bool, true, false, Option, none, some, if◌then◌else◌,
}
use titan_ipoverlay.Prelude.Str.{Str, str_eq, str_eq_refl}
use titan_ipoverlay.Prelude.Assoc.{lookup, insert, remove}
use titan_ipoverlay.Wire.{Pb, Sock, took}
use titan_ipoverlay.Wire.View.{Calm-close, Quiet-refl, conn_at, insert_self, Read}
use titan_ipoverlay.Client.Tunnel.{Tunnel, TcpProxy, set_conn}
use titan_ipoverlay.Client.Tunnel.Effects.{
  tcp_conn, node_view, NodeQuiet, then-NodeQuiet, insert-NodeQuiet, other-NodeQuiet,
  remove-NodeQuiet,
}
use titan_ipoverlay.Client.Tunnel.Messages.{
  send_to_pop, on_proxy_conn_close, on_proxy_session_data_from_proxy, proxy_read, read_proxy,
  read_conn, proxy_end, end_proxy, close_read,
}
use titan_ipoverlay.Client.Tunnel.Messages.Quiet.{data-NodeQuiet, close-NodeQuiet}

module _ (pb : Pb) (id : Str) where
  pub read-NodeQuiet :
      (t : Tunnel) (j b : Str) → str_eq j id ≡ false → NodeQuiet pb id t (proxy_read pb j b t)
  unfolding proxy_read read_proxy read_conn
  read-NodeQuiet t j b h = go (lookup j t.tcp)
    where
      to : (p : TcpProxy) (c : Option Sock) → NodeQuiet pb id t (read_conn pb j b p c t)
      to p none = Quiet-refl pb id _
      to p (some s) =
          let u = set_conn j p (took b s) t in
          then-NodeQuiet pb id t u (on_proxy_session_data_from_proxy pb j b u)
            (other-NodeQuiet pb id t j _ h) (data-NodeQuiet pb id u j b h)

      go : (o : Option TcpProxy) → NodeQuiet pb id t (read_proxy pb j b o t)
      go none = Quiet-refl pb id _
      go (some p) = to p p.conn

  -- A round of the session's own proxyConn.
  pub own_frame-Read :
      (t : Tunnel) (b : Str) (p : TcpProxy) (c : Sock)
      → lookup id t.tcp ≡ some p
      → p.conn ≡ some c
      → Read pb id b (node_view id t) (node_view id (proxy_read pb id b t))
  unfolding proxy_read read_proxy read_conn on_proxy_session_data_from_proxy send_to_pop
  own_frame-Read t b p c e h =
      rw (e, h)
        (record {
          received = rw own refl;
          written = rw own refl;
          still_sink = rw own (λ k. k);
          unasked = λ h. h;
          sent = refl;
        })
    where
      own :
          conn_at tcp_conn (lookup id (insert id (record p { conn = some (took b c) }) t.tcp))
          ≡ some (took b c)
      own = insert_self tcp_conn id id _ t.tcp (str_eq_refl id)

  pub end-NodeQuiet : (t : Tunnel) (j : Str) → NodeQuiet pb id t (proxy_end pb j t)
  unfolding proxy_end end_proxy close_read on_proxy_conn_close send_to_pop
  end-NodeQuiet t j = go (lookup j t.tcp) refl
    where
      close :
          (u : Tunnel) (p : TcpProxy) (c : Option Sock)
          → p.conn ≡ c
          → lookup j u.tcp ≡ some p
          → NodeQuiet pb id u (close_read pb j p c u)
      close u p none h e = Quiet-refl pb id _
      close u p (some s) h e = insert-NodeQuiet pb id u j _ (rw (e, h) (Calm-close s))

      told : (b : Bool) → Tunnel
      told b = if b then t else on_proxy_conn_close pb j t

      telling : (b : Bool) → NodeQuiet pb id t (told b)
      telling true = Quiet-refl pb id _
      telling false = close-NodeQuiet pb id t j

      same_tcp : (b : Bool) → (told b).tcp ≡ t.tcp
      same_tcp true = refl
      same_tcp false = refl

      go : (o : Option TcpProxy) → lookup j t.tcp ≡ o → NodeQuiet pb id t (end_proxy pb j o t)
      go none e = Quiet-refl pb id _
      go (some p) e =
          let u = told p.is_close_by_server in
          let w = close_read pb j p p.conn u in
          then-NodeQuiet pb id t w (record w { proxy_sessions = remove j w.proxy_sessions })
            (then-NodeQuiet pb id t u w (telling p.is_close_by_server)
              (close u p p.conn refl (ap (lookup j) (same_tcp p.is_close_by_server) ∙ e)))
            (remove-NodeQuiet pb id w j)
