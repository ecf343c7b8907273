-- ===== src/Ws/Tunnel/Effects.antt =====
-- The steps of the server's end of a tunnel that leave a session alone.
use titan_ipoverlay.Prelude.{
  suc, ◌≡◌, refl, Bool, true, false, Option, none, some, [], length, ltb, ◌==◌, if◌then◌else◌,
}
use titan_ipoverlay.Prelude.Str.{Str, str_eq}
use titan_ipoverlay.Prelude.Assoc.{Assoc, lookup, insert, remove, lookup-insert, lookup-remove}
use titan_ipoverlay.Prelude.Exec.{ok, err}
use titan_ipoverlay.Wire.{Pb, Message, Outlet, Written, close_link, Sock, send_message, ping, pong}
use titan_ipoverlay.Wire.Session.{
  Silent, Silent-refl, send_message-Silent, write_frame-Silent, close_link-Silent, payload_for,
  creates,
}
use titan_ipoverlay.Wire.View.{
  View, Calm, Calm-refl, Calm-close, Quiet, Quiet-refl, Quiet-trans, conn_at, insert-other,
  insert-Calm,
}
use titan_ipoverlay.Ws.Tunnel.{
  Tunnel, TcpProxy, Proxy, tcp_proxy, udp_proxy, on_outlet, set_tcp, close_by_client, close_by,
  close_tcp, write_tcp, write_tcp_of, write_to, on_proxy_tcp_conn_close, on_proxy_data_from_proxy,
  on_ping, on_pong, write_pong, write_ping, keepalive, keepalive_close,
}

abbrev pub is_tcp : Option Proxy → Bool
is_tcp (some tcp_proxy) = true
is_tcp _ = false

abbrev pub tcp_conn : TcpProxy → Option Sock
tcp_conn p = p.conn

abbrev pub pop_view : Str → Tunnel → View
pop_view id t = record {
  sock = conn_at tcp_conn (lookup id t.tcp);
  member = is_tcp (lookup id t.proxys);
  asked = false;
  outlet = t.outlet;
}

module _ (pb : Pb) (id : Str) where
  abbrev pub PopQuiet : Tunnel → Tunnel → Type 0
  PopQuiet t t' = Quiet pb id (pop_view id t) (pop_view id t')

  -- A step that changes only the outlet, or only the entry of one session.
  pub outlet-PopQuiet :
      (t : Tunnel) (o : Outlet) → Silent pb id t.outlet o → PopQuiet t (record t { outlet = o })
  outlet-PopQuiet t o s = record {
    calm = Calm-refl _;
    still_member = λ h. h;
    unasked = λ h. h;
    silent = s;
  }

  pub insert-PopQuiet :
      (t : Tunnel) (j : Str) (p : TcpProxy)
      → Calm (conn_at tcp_conn (lookup j t.tcp)) p.conn
      → PopQuiet t (set_tcp j p t)
  insert-PopQuiet t j p c = record {
    calm = insert-Calm tcp_conn j id p t.tcp c;
    still_member = λ h. h;
    unasked = λ h. h;
    silent = Silent-refl pb id t.outlet;
  }

  pub other-PopQuiet :
      (t : Tunnel) (j : Str) (p : TcpProxy) → str_eq j id ≡ false → PopQuiet t (set_tcp j p t)
  other-PopQuiet t j p h = record {
    calm = rw (insert-other tcp_conn j id p t.tcp h) (Calm-refl _);
    still_member = λ h. h;
    unasked = λ h. h;
    silent = Silent-refl pb id t.outlet;
  }

  -- A change of the map of proxies that makes no other session a TCP proxy.
  pub proxys-PopQuiet :
      (t : Tunnel) (m : Assoc Proxy)
      → (is_tcp (lookup id m) ≡ true → is_tcp (lookup id t.proxys) ≡ true)
      → PopQuiet t (record t { proxys = m })
  proxys-PopQuiet t m h = record {
    calm = Calm-refl _;
    still_member = h;
    unasked = λ h. h;
    silent = Silent-refl pb id t.outlet;
  }

  pub set_udp-PopQuiet :
      (t : Tunnel) (j : Str) (p : _)
      → PopQuiet t (record t { proxys = insert j (udp_proxy p) t.proxys })
  set_udp-PopQuiet t j p =
      proxys-PopQuiet t _ (rw (lookup-insert j id (udp_proxy p) t.proxys) (go (str_eq j id)))
    where
      go :
          (b : Bool)
          → is_tcp (if b then some (udp_proxy p) else lookup id t.proxys) ≡ true
          → is_tcp (lookup id t.proxys) ≡ true
      go true h = absurd (cc h)
      go false h = h

  pub remove-PopQuiet :
      (t : Tunnel) (j : Str) → PopQuiet t (record t { proxys = remove j t.proxys })
  remove-PopQuiet t j = proxys-PopQuiet t _ (rw (lookup-remove j id t.proxys) (go (str_eq j id)))
    where
      go :
          (b : Bool)
          → is_tcp (if b then none else lookup id t.proxys) ≡ true
          → is_tcp (lookup id t.proxys) ≡ true
      go true h = absurd (cc h)
      go false h = h

  pub send-PopQuiet :
      (t : Tunnel) (m : Message)
      → payload_for id m.kind m.session_id m.payload ≡ []
      → creates id m.kind m.session_id ≡ false
      → PopQuiet t (on_outlet (send_message pb m) t).1
  send-PopQuiet t m hp ha = outlet-PopQuiet t _ (send_message-Silent pb id m t.outlet hp ha)

  pub close-PopQuiet : (t : Tunnel) (j : Str) → PopQuiet t (on_proxy_tcp_conn_close pb j t)
  unfolding on_proxy_tcp_conn_close
  close-PopQuiet t j = send-PopQuiet t _ refl refl

  pub data-PopQuiet :
      (t : Tunnel) (j b : Str)
      → str_eq j id ≡ false
      → PopQuiet t (on_proxy_data_from_proxy pb j b t)
  unfolding on_proxy_data_from_proxy
  data-PopQuiet t j b h = send-PopQuiet t _ (rw h refl) refl

  pub close_by_client-PopQuiet : (t : Tunnel) (j : Str) → PopQuiet t (close_by_client j t)
  unfolding close_by_client close_by close_tcp
  close_by_client-PopQuiet t j = go (lookup j t.tcp) refl
    where
      after :
          (p : TcpProxy) (c : Option Sock)
          → p.conn ≡ c
          → lookup j t.tcp ≡ some p
          → PopQuiet t (close_tcp j p c t)
      after p none h e = insert-PopQuiet t j _ (rw (e, h) (Calm-refl _))
      after p (some s) h e = insert-PopQuiet t j _ (rw (e, h) (Calm-close s))

      go : (o : Option TcpProxy) → lookup j t.tcp ≡ o → PopQuiet t (close_by j o t)
      go none e = Quiet-refl pb id _
      go (some p) e = after p p.conn refl e

  pub write_tcp-PopQuiet :
      (t : Tunnel) (j b : Str) → str_eq j id ≡ false → PopQuiet t (write_tcp j b t).1
  unfolding write_tcp write_tcp_of write_to
  write_tcp-PopQuiet t j b h = go (lookup j t.tcp)
    where
      to : (p : TcpProxy) (c : Option Sock) → PopQuiet t (write_to j b p c t).1
      to p none = Quiet-refl pb id _
      to p (some s) = other-PopQuiet t j _ h

      go : (o : Option TcpProxy) → PopQuiet t (write_tcp_of j b o t).1
      go none = Quiet-refl pb id _
      go (some p) = to p p.conn

  pub ping-PopQuiet : (t : Tunnel) (b : Str) → PopQuiet t (on_ping b t)
  unfolding on_ping write_pong
  ping-PopQuiet t b = outlet-PopQuiet t _ (write_frame-Silent pb id (pong b) t.outlet refl refl)

  pub pong-PopQuiet : (t : Tunnel) (b : Str) → PopQuiet t (on_pong b t)
  unfolding on_pong
  pong-PopQuiet t b = go (length b == 8)
    where
      go : (c : Bool) → PopQuiet t (if c then record t { wait_pong = 0 } else t)
      go true = Quiet-refl pb id _
      go false = Quiet-refl pb id _

  pub keepalive-PopQuiet : (t : Tunnel) (now : Str) → PopQuiet t (keepalive now t).1
  unfolding keepalive write_ping keepalive_close
  keepalive-PopQuiet t now = go (ltb 3 t.wait_pong)
    where
      closed : (o : Written Outlet) → Silent pb id t.outlet o.1 → PopQuiet t (keepalive_close o t).1
      closed (ok u, o) s =
          outlet-PopQuiet t _
            (record { link = λ h. absurd (cc h); no_bytes = s.no_bytes; no_request = s.no_request })
      closed (err e, o) s = Quiet-refl pb id _

      go :
          (c : Bool)
          → PopQuiet t
              (if c
                then keepalive_close (close_link t.outlet) t
                else (ok tt, record (write_ping now t).1 { wait_pong = suc t.wait_pong })).1
      go true = closed (close_link t.outlet) (close_link-Silent pb id t.outlet)
      go false = outlet-PopQuiet t _ (write_frame-Silent pb id (ping now) t.outlet refl refl)

  pub then-PopQuiet : (t u w : Tunnel) → PopQuiet t u → PopQuiet u w → PopQuiet t w
  then-PopQuiet t u w a b = Quiet-trans pb id (pop_view id t) (pop_view id u) (pop_view id w) a b
