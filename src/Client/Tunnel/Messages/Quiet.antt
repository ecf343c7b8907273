-- ===== src/Client/Tunnel/Messages/Quiet.antt =====
-- The messages and goroutines that leave a session alone at the node's end of a tunnel, and those of
-- the session itself.
use titan_ipoverlay.Prelude.{ℕ, ◌≡◌, refl, false, Option, none, some, List, [], ◌∷◌, ◌++◌}
use titan_ipoverlay.Prelude.Str.{Str, str_eq}
use titan_ipoverlay.Prelude.Assoc.{lookup, insert, lookup-insert}
use titan_ipoverlay.Prelude.Exec.{Result, ok, err}
use titan_ipoverlay.Wire.{
  Pb, MessageType, command, proxy_session_create, proxy_session_data, proxy_session_close,
  proxy_udp_data, other_type, Written, Sock, UdpData,
}
use titan_ipoverlay.Wire.Session.{Silent-refl, send_message-Silent, payload_for, creates}
use titan_ipoverlay.Wire.View.{Calm-refl, Quiet-refl, insert-other, Delivered}
use titan_ipoverlay.Client.Tunnel.{Tunnel, UdpProxy, write_udp}
use titan_ipoverlay.Client.Tunnel.Effects.{
  tcp_conn, node_view, has_started, NodeQuiet, then-NodeQuiet, outlet-NodeQuiet,
  close_by_server-NodeQuiet, write_tcp-NodeQuiet, write_own-Delivered,
}
use titan_ipoverlay.Client.Tunnel.Messages.{
  Dialer, send_to_pop, on_proxy_conn_close, on_proxy_session_data_from_proxy,
  create_proxy_session_reply, reply_of, send_reply, create_proxy_session, create_unless, with_dest,
  dialed, on_proxy_session_data_from_tunnel, data_to_session, on_proxy_session_close, close_session,
  on_proxy_udp_data_from_tunnel, udp_decoded, udp_to, with_udp_conn, store_new, write_stored,
  dispatch,
}

module _ (pb : Pb) (id : Str) where
  pub send-NodeQuiet :
      (t : Tunnel) (k : MessageType) (j b : Str)
      → payload_for id k j b ≡ []
      → creates id k j ≡ false
      → NodeQuiet pb id t (send_to_pop pb k j b t).1
  unfolding send_to_pop
  send-NodeQuiet t k j b hp ha =
      outlet-NodeQuiet pb id t _ (send_message-Silent pb id _ t.outlet hp ha)

  reply-NodeQuiet :
      (t : Tunnel) (j : Str) (e : Option Str)
      → str_eq j id ≡ false
      → NodeQuiet pb id t (create_proxy_session_reply pb j e t).1
  unfolding create_proxy_session_reply send_reply
  reply-NodeQuiet t j e h = go (pb.create_reply.marshal (reply_of pb e))
    where
      go : (o : Option Str) → NodeQuiet pb id t (send_reply pb j o t).1
      go none = Quiet-refl pb id _
      go (some b) = send-NodeQuiet t proxy_session_create j b refl h

  pub data-NodeQuiet :
      (t : Tunnel) (j b : Str)
      → str_eq j id ≡ false
      → NodeQuiet pb id t (on_proxy_session_data_from_proxy pb j b t)
  unfolding on_proxy_session_data_from_proxy
  data-NodeQuiet t j b h = send-NodeQuiet t proxy_session_data j b (rw h refl) refl

  pub close-NodeQuiet : (t : Tunnel) (j : Str) → NodeQuiet pb id t (on_proxy_conn_close pb j t)
  unfolding on_proxy_conn_close
  close-NodeQuiet t j = send-NodeQuiet t proxy_session_close j [] refl refl

  module _ (net : Dialer) where
    -- The goroutine of another session's request.
    pub create-NodeQuiet :
        (t : Tunnel) (j b : Str)
        → str_eq j id ≡ false
        → NodeQuiet pb id t (create_proxy_session pb net j b t).1
    unfolding create_proxy_session create_unless with_dest dialed
    create-NodeQuiet t j b h = go (lookup j t.proxy_sessions)
      where
        stored : Sock → Tunnel
        stored s = record t {
          proxy_sessions = insert j tt t.proxy_sessions;
          tcp = insert j (record { conn = some s; is_close_by_server = false }) t.tcp;
        }

        storing : (s : Sock) → NodeQuiet pb id t (stored s)
        storing s = record {
          calm =
              rw
                (insert-other tcp_conn j id (record { conn = some s; is_close_by_server = false })
                  t.tcp h)
                (Calm-refl _);
          still_member = rw (lookup-insert j id tt t.proxy_sessions, h) (λ e. e);
          unasked = λ h. h;
          silent = Silent-refl pb id t.outlet;
        }

        connected : (r : Result Str Sock) → NodeQuiet pb id t (dialed pb net j r t).1
        connected (err e) = reply-NodeQuiet t j (some e) h
        connected (ok s) =
            then-NodeQuiet pb id t (stored s) (create_proxy_session_reply pb j none (stored s)).1
              (storing s) (reply-NodeQuiet (stored s) j none h)

        to : (o : Option Str) → NodeQuiet pb id t (with_dest pb net j o t).1
        to none = reply-NodeQuiet t j (some net.bad_dest) h
        to (some a) = connected (net.dial_tcp a)

        go : (o : Option (Unit {0})) → NodeQuiet pb id t (create_unless pb net j b o t).1
        go (some u) = reply-NodeQuiet t j none h
        go none = to (pb.dest_addr.unmarshal b)

    data_to-NodeQuiet :
        (t : Tunnel) (j b : Str)
        → str_eq j id ≡ false
        → NodeQuiet pb id t (on_proxy_session_data_from_tunnel pb net j b t).1
    unfolding on_proxy_session_data_from_tunnel data_to_session
    data_to-NodeQuiet t j b h = go (lookup j t.proxy_sessions)
      where
        go : (o : Option (Unit {0})) → NodeQuiet pb id t (data_to_session pb net j b o t).1
        go none = Quiet-refl pb id _
        go (some u) = write_tcp-NodeQuiet pb id t j b h

    pub session_close-NodeQuiet :
        (t : Tunnel) (j : Str) → NodeQuiet pb id t (on_proxy_session_close pb net j t).1
    unfolding on_proxy_session_close close_session
    session_close-NodeQuiet t j = go (lookup j t.proxy_sessions)
      where
        go : (o : Option (Unit {0})) → NodeQuiet pb id t (close_session pb net j o t).1
        go none = Quiet-refl pb id _
        go (some u) = close_by_server-NodeQuiet pb id t j

    pub udp-NodeQuiet :
        (t : Tunnel) (j b : Str) → NodeQuiet pb id t (on_proxy_udp_data_from_tunnel pb net j b t).1
    unfolding on_proxy_udp_data_from_tunnel udp_decoded udp_to with_udp_conn write_stored
    udp-NodeQuiet t j b = go (pb.udp.unmarshal b)
      where
        new : (n : ℕ) (o : Written (Option Sock)) → NodeQuiet pb id t (store_new pb net j n o t).1
        new n (err e, c) = Quiet-refl pb id _
        new n (ok u, c) = Quiet-refl pb id _

        with_conn : (b : Str) (c : Option Sock) → NodeQuiet pb id t (with_udp_conn pb net j b c t).1
        with_conn b none = Quiet-refl pb id _
        with_conn b (some s) = new t.udp_timeout (write_udp b (some s))

        to : (d : UdpData) (o : Option UdpProxy) → NodeQuiet pb id t (udp_to pb net j d o t).1
        to d (some p) = Quiet-refl pb id _
        to d none = with_conn d.data_bytes (net.dial_udp d.addr)

        go : (o : Option UdpData) → NodeQuiet pb id t (udp_decoded pb net j o t).1
        go none = Quiet-refl pb id _
        go (some d) = to d (lookup j t.proxy_udps)

    has_started-append :
        (xs : List (Str × Str)) (j b : Str)
        → str_eq j id ≡ false
        → has_started id (xs ++ ((j, b) ∷ [])) ≡ has_started id xs
    has_started-append [] j b h = rw h refl
    has_started-append ((i, c) ∷ xs) j b h = rw (has_started-append xs j b h) refl

    -- A message that neither carries bytes of the session nor asks for it.
    pub dispatch-NodeQuiet :
        (t : Tunnel) (k : MessageType) (j b : Str)
        → (k ≡ proxy_session_data → str_eq j id ≡ false)
        → (k ≡ proxy_session_create → str_eq j id ≡ false)
        → NodeQuiet pb id t (dispatch pb net k j b t).1
    unfolding dispatch
    dispatch-NodeQuiet t command j b h g = Quiet-refl pb id _
    dispatch-NodeQuiet t proxy_session_create j b h g = record {
      calm = Calm-refl _;
      still_member = λ e. e;
      unasked = rw (has_started-append t.started j b (g refl)) (λ e. e);
      silent = Silent-refl pb id t.outlet;
    }
    dispatch-NodeQuiet t proxy_session_data j b h g = data_to-NodeQuiet t j b (h refl)
    dispatch-NodeQuiet t proxy_session_close j b h g = session_close-NodeQuiet t j
    dispatch-NodeQuiet t proxy_udp_data j b h g = udp-NodeQuiet t j b
    dispatch-NodeQuiet t (other_type n) j b h g = Quiet-refl pb id _

    -- Bytes for the session.
    pub data_own-Delivered :
        (t : Tunnel) (b : Str)
        → Delivered pb id b
            (node_view id t)
            (node_view id (on_proxy_session_data_from_tunnel pb net id b t).1)
    unfolding on_proxy_session_data_from_tunnel data_to_session
    data_own-Delivered t b = go (lookup id t.proxy_sessions) refl
      where
        go :
            (o : Option (Unit {0}))
            → lookup id t.proxy_sessions ≡ o
            → Delivered pb id b (node_view id t) (node_view id (data_to_session pb net id b o t).1)
        go none e = record {
          wrote = rw e (λ k. absurd (cc k));
          skipped = λ k. refl;
          received = refl;
          still_sink = λ k. k;
          unasked = λ h. h;
          silent = Silent-refl pb id t.outlet;
        }
        go (some u) e = write_own-Delivered pb id t b (rw e refl)
