-- ===== src/Client/Tunnel/Effects.antt =====
-- The steps of the node's end of a tunnel that leave a session alone.
use titan_ipoverlay.Prelude.{
  suc, ◌≡◌, refl, Bool, true, false, ◌||◌, Option, none, some, List, [], ◌∷◌, ltb, if◌then◌else◌,
}
use titan_ipoverlay.Prelude.Str.{Str, str_eq, str_eq_refl}
use titan_ipoverlay.Prelude.Assoc.{lookup, remove, lookup-remove}
use titan_ipoverlay.Wire.{Pb, Outlet, Link, close_link, Sock, write_sock, ping, pong}
use titan_ipoverlay.Wire.Session.{Silent, Silent-refl, write_frame-Silent, close_link-Silent}
use titan_ipoverlay.Wire.View.{
  View, Calm, Calm-refl, Calm-close, Quiet, Quiet-refl, Quiet-trans, conn_at, insert-other,
  insert_self, insert-Calm, Delivered, write_sock-Delivered,
}
use titan_ipoverlay.Client.Tunnel.{
  Tunnel, TcpProxy, on_outlet, set_tcp, close_by_server, close_tcp_of, close_by, write_tcp,
  write_tcp_of, write_to, on_pong, write_pong, write_ping, keepalive, keepalive_tick,
}

abbrev pub is_member : Option (Unit {0}) → Bool
is_member none = false
is_member (some u) = true

abbrev pub tcp_conn : TcpProxy → Option Sock
tcp_conn p = p.conn

abbrev pub has_started : Str → List (Str × Str) → Bool
has_started id [] = false
has_started id ((j, b) ∷ js) = str_eq j id || has_started id js

abbrev pub node_view : Str → Tunnel → View
node_view id t = record {
  sock = conn_at tcp_conn (lookup id t.tcp);
  member = is_member (lookup id t.proxy_sessions);
  asked = has_started id t.started;
  outlet = t.outlet;
}

module _ (pb : Pb) (id : Str) where
  abbrev pub NodeQuiet : Tunnel → Tunnel → Type 0
  NodeQuiet t t' = Quiet pb id (node_view id t) (node_view id t')

  pub then-NodeQuiet : (t u w : Tunnel) → NodeQuiet t u → NodeQuiet u w → NodeQuiet t w
  then-NodeQuiet t u w a b =
      Quiet-trans pb id (node_view id t) (node_view id u) (node_view id w) a b

  -- A step that changes only the outlet, or only the entry of one session.
  pub outlet-NodeQuiet :
      (t : Tunnel) (o : Outlet) → Silent pb id t.outlet o → NodeQuiet t (record t { outlet = o })
  outlet-NodeQuiet t o s = record {
    calm = Calm-refl _;
    still_member = λ h. h;
    unasked = λ h. h;
    silent = s;
  }

  pub insert-NodeQuiet :
      (t : Tunnel) (j : Str) (p : TcpProxy)
      → Calm (conn_at tcp_conn (lookup j t.tcp)) p.conn
      → NodeQuiet t (set_tcp j p t)
  insert-NodeQuiet t j p c = record {
    calm = insert-Calm tcp_conn j id p t.tcp c;
    still_member = λ h. h;
    unasked = λ h. h;
    silent = Silent-refl pb id t.outlet;
  }

  pub other-NodeQuiet :
      (t : Tunnel) (j : Str) (p : TcpProxy) → str_eq j id ≡ false → NodeQuiet t (set_tcp j p t)
  other-NodeQuiet t j p h = record {
    calm = rw (insert-other tcp_conn j id p t.tcp h) (Calm-refl _);
    still_member = λ h. h;
    unasked = λ h. h;
    silent = Silent-refl pb id t.outlet;
  }

  pub remove-NodeQuiet :
      (t : Tunnel) (j : Str) → NodeQuiet t (record t { proxy_sessions = remove j t.proxy_sessions })
  remove-NodeQuiet t j = record {
    calm = Calm-refl _;
    still_member = rw (lookup-remove j id t.proxy_sessions) (go (str_eq j id));
    unasked = λ h. h;
    silent = Silent-refl pb id t.outlet;
  }
    where
      go :
          (b : Bool)
          → is_member (if b then none else lookup id t.proxy_sessions) ≡ true
          → is_member (lookup id t.proxy_sessions) ≡ true
      go true h = absurd (cc h)
      go false h = h

  pub close_by_server-NodeQuiet : (t : Tunnel) (j : Str) → NodeQuiet t (close_by_server j t)
  unfolding close_by_server close_tcp_of close_by
  close_by_server-NodeQuiet t j = go (lookup j t.tcp) refl
    where
      after :
          (p : TcpProxy) (c : Option Sock)
          → p.conn ≡ c
          → lookup j t.tcp ≡ some p
          → NodeQuiet t (close_by j p c t)
      after p none h e = insert-NodeQuiet t j _ (rw (e, h) (Calm-refl _))
      after p (some s) h e = insert-NodeQuiet t j _ (rw (e, h) (Calm-close s))

      go : (o : Option TcpProxy) → lookup j t.tcp ≡ o → NodeQuiet t (close_tcp_of j o t)
      go none e = Quiet-refl pb id _
      go (some p) e = after p p.conn refl e

  pub write_tcp-NodeQuiet :
      (t : Tunnel) (j b : Str) → str_eq j id ≡ false → NodeQuiet t (write_tcp j b t).1
  unfolding write_tcp write_tcp_of write_to
  write_tcp-NodeQuiet t j b h = go (lookup j t.tcp)
    where
      to : (p : TcpProxy) (c : Option Sock) → NodeQuiet t (write_to j b p c t).1
      to p none = Quiet-refl pb id _
      to p (some s) = other-NodeQuiet t j _ h

      go : (o : Option TcpProxy) → NodeQuiet t (write_tcp_of j b o t).1
      go none = Quiet-refl pb id _
      go (some p) = to p p.conn

  own_write :
      (t : Tunnel) (b : Str) (o : Option TcpProxy)
      → lookup id t.tcp ≡ o
      → is_member (lookup id t.proxy_sessions) ≡ true
      → Delivered pb id b (node_view id t) (node_view id (write_tcp_of id b o t).1)
  unfolding write_tcp_of write_to
  own_write t b none e m = record {
    wrote = rw (e, m) (λ k. absurd (cc k));
    skipped = λ k. refl;
    received = refl;
    still_sink = λ k. k;
    unasked = λ h. h;
    silent = Silent-refl pb id t.outlet;
  }
  own_write t b (some p) e m = go p.conn refl
    where
      go :
          (c : Option Sock)
          → p.conn ≡ c
          → Delivered pb id b (node_view id t) (node_view id (write_to id b p c t).1)
      go none h = record {
        wrote = rw (e, h, m) (λ k. absurd (cc k));
        skipped = λ k. refl;
        received = refl;
        still_sink = λ k. k;
        unasked = λ h. h;
        silent = Silent-refl pb id t.outlet;
      }
      go (some s) h =
          rw
            (
              e,
              h,
              insert_self tcp_conn id id (record p { conn = some (write_sock b s).1 }) t.tcp
                  (str_eq_refl id),
              m,
            )
            (write_sock-Delivered pb id b s _ t.outlet)

  pub write_own-Delivered :
      (t : Tunnel) (b : Str)
      → is_member (lookup id t.proxy_sessions) ≡ true
      → Delivered pb id b (node_view id t) (node_view id (write_tcp id b t).1)
  unfolding write_tcp
  write_own-Delivered t b m = own_write t b (lookup id t.tcp) refl m

  pub ping-NodeQuiet : (t : Tunnel) (b : Str) → NodeQuiet t (write_pong b t).1
  unfolding write_pong
  ping-NodeQuiet t b = outlet-NodeQuiet t _ (write_frame-Silent pb id (pong b) t.outlet refl refl)

  pub pong-NodeQuiet : (t : Tunnel) (b : Str) → NodeQuiet t (on_pong b t)
  unfolding on_pong
  pong-NodeQuiet t b = Quiet-refl pb id _

  pub keepalive-NodeQuiet : (t : Tunnel) (now : Str) → NodeQuiet t (keepalive now t).1
  unfolding keepalive keepalive_tick write_ping
  keepalive-NodeQuiet t now = go t.outlet.conn
    where
      by :
          (c : Bool)
          → NodeQuiet t (
              if c
              then (on_outlet close_link t).1
              else (write_ping now (record t { waitpone = suc t.waitpone })).1)
      by true = outlet-NodeQuiet t _ (close_link-Silent pb id t.outlet)
      by false = outlet-NodeQuiet t _ (write_frame-Silent pb id (ping now) t.outlet refl refl)

      go : (l : Option Link) → NodeQuiet t (keepalive_tick now l t).1
      go none = Quiet-refl pb id _
      go (some l) = by (ltb 3 t.waitpone)
