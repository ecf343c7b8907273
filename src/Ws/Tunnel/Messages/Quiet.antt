-- ===== src/Ws/Tunnel/Messages/Quiet.antt =====
-- The messages that leave a session alone at the server's end of a tunnel.
use titan_ipoverlay.Prelude.{
  ℕ, ◌≡◌, refl, Bool, true, false, Option, none, some, Bool-cases, inl, inr,
}
use titan_ipoverlay.Prelude.Str.{Str, str_eq, str_eq_sound, str_eq_refl}
use titan_ipoverlay.Prelude.Assoc.{lookup}
use titan_ipoverlay.Socks5.Ip.{Net}
use titan_ipoverlay.Wire.{
  Pb, Message, MessageType, command, proxy_session_create, proxy_session_data, proxy_session_close,
  proxy_udp_data, other_type, Sock, write_sock,
}
use titan_ipoverlay.Wire.Session.{Silent-refl, payload_for, payload_of}
use titan_ipoverlay.Wire.View.{
  Quiet-refl, insert_self, Quiet-sink, Delivered, Quiet-Delivered, write_sock-Delivered,
}
use titan_ipoverlay.Ws.Tunnel.{
  Tunnel, TcpProxy, Proxy, tcp_proxy, udp_proxy, Wait, writing, selecting, replied, write_tcp,
  write_tcp_of, write_to, on_proxy_tcp_conn_close, on_proxy_session_create_reply, reply_to,
  on_proxy_session_close, close_proxy, on_proxy_session_data_from_tunnel, data_to_proxy,
}
use titan_ipoverlay.Ws.Tunnel.Messages.{
  on_message, on_decoded, dispatch, on_proxy_udp_data_from_tunnel, udp_to_proxy, write_to_src,
}
use titan_ipoverlay.Ws.Tunnel.Effects.{
  is_tcp, tcp_conn, pop_view, PopQuiet, set_udp-PopQuiet, close-PopQuiet, close_by_client-PopQuiet,
  write_tcp-PopQuiet,
}

module _ (pb : Pb) (id : Str) where
  reply-PopQuiet :
      (t : Tunnel) (j b : Str) → PopQuiet pb id t (on_proxy_session_create_reply pb j b t).1
  unfolding on_proxy_session_create_reply reply_to
  reply-PopQuiet t j b = go (lookup j t.wait_list)
    where
      go : (o : Option Wait) → PopQuiet pb id t (reply_to pb j b o t).1
      go none = Quiet-refl pb id _
      go (some writing) = Quiet-refl pb id _
      go (some selecting) = Quiet-refl pb id _
      go (some (replied c)) = Quiet-refl pb id _

  session_close-PopQuiet :
      (t : Tunnel) (j : Str) → PopQuiet pb id t (on_proxy_session_close pb j t).1
  unfolding on_proxy_session_close close_proxy
  session_close-PopQuiet t j = go (lookup j t.proxys)
    where
      go : (o : Option Proxy) → PopQuiet pb id t (close_proxy pb j o t).1
      go none = Quiet-refl pb id _
      go (some tcp_proxy) = close_by_client-PopQuiet pb id t j
      go (some (udp_proxy p)) = Quiet-refl pb id _

  data_to-PopQuiet :
      (t : Tunnel) (j b : Str)
      → str_eq j id ≡ false
      → PopQuiet pb id t (on_proxy_session_data_from_tunnel pb j b t).1
  unfolding on_proxy_session_data_from_tunnel data_to_proxy
  data_to-PopQuiet t j b h = go (lookup j t.proxys)
    where
      go : (o : Option Proxy) → PopQuiet pb id t (data_to_proxy pb j b o t).1
      go none = close-PopQuiet pb id t j
      go (some tcp_proxy) = write_tcp-PopQuiet pb id t j b h
      go (some (udp_proxy p)) = Quiet-refl pb id _

  module _ (net : Net) (resolve : Str → Bool) (now : ℕ) where
    udp-PopQuiet :
        (t : Tunnel) (j b : Str)
        → PopQuiet pb id t (on_proxy_udp_data_from_tunnel pb net resolve now j b t).1
    unfolding on_proxy_udp_data_from_tunnel udp_to_proxy write_to_src
    udp-PopQuiet t j b = go (lookup j t.proxys)
      where
        go : (o : Option Proxy) → PopQuiet pb id t (udp_to_proxy pb net resolve now j b o t).1
        go none = Quiet-refl pb id _
        go (some tcp_proxy) = Quiet-refl pb id _
        go (some (udp_proxy p)) = set_udp-PopQuiet pb id t j _

    -- A message that carries no bytes of the session.
    pub dispatch-PopQuiet :
        (t : Tunnel) (k : MessageType) (j b : Str)
        → (k ≡ proxy_session_data → str_eq j id ≡ false)
        → PopQuiet pb id t (dispatch pb net resolve now k j b t).1
    unfolding dispatch
    dispatch-PopQuiet t command j b h = Quiet-refl pb id _
    dispatch-PopQuiet t proxy_session_create j b h = reply-PopQuiet t j b
    dispatch-PopQuiet t proxy_session_data j b h = data_to-PopQuiet t j b (h refl)
    dispatch-PopQuiet t proxy_session_close j b h = session_close-PopQuiet t j
    dispatch-PopQuiet t proxy_udp_data j b h = udp-PopQuiet t j b
    dispatch-PopQuiet t (other_type n) j b h = Quiet-refl pb id _

  own_write :
      (t : Tunnel) (b : Str) (o : Option TcpProxy)
      → lookup id t.tcp ≡ o
      → is_tcp (lookup id t.proxys) ≡ true
      → Delivered pb id b (pop_view id t) (pop_view id (write_tcp_of id b o t).1)
  unfolding write_tcp_of write_to
  own_write t b none e m = record {
    wrote = rw (e, m) (λ k. absurd (cc k));
    skipped = λ k. refl;
    received = refl;
    still_sink = λ k. k;
    unasked = λ h. h;
    silent = Silent-refl pb id t.outlet;
  }
  own_write t b (some p) e m = go p.conn refl
    where
      go :
          (c : Option Sock)
          → p.conn ≡ c
          → Delivered pb id b (pop_view id t) (pop_view id (write_to id b p c t).1)
      go none h = record {
        wrote = rw (e, h, m) (λ k. absurd (cc k));
        skipped = λ k. refl;
        received = refl;
        still_sink = λ k. k;
        unasked = λ h. h;
        silent = Silent-refl pb id t.outlet;
      }
      go (some s) h =
          rw
            (
              e,
              h,
              insert_self tcp_conn id id (record p { conn = some (write_sock b s).1 }) t.tcp
                  (str_eq_refl id),
              m,
            )
            (write_sock-Delivered pb id b s _ t.outlet)

  -- Bytes for the session.
  pub data_own-Delivered :
      (t : Tunnel) (b : Str)
      → Delivered pb id b
          (pop_view id t)
          (pop_view id (on_proxy_session_data_from_tunnel pb id b t).1)
  unfolding on_proxy_session_data_from_tunnel data_to_proxy write_tcp
  data_own-Delivered t b = go (lookup id t.proxys) refl
    where
      outside :
          (t' : Tunnel)
          → is_tcp (lookup id t.proxys) ≡ false
          → PopQuiet pb id t t'
          → Delivered pb id b (pop_view id t) (pop_view id t')
      outside t' m q = record {
        wrote = rw m (λ k. absurd (cc k));
        skipped = λ k. q.calm.written;
        received = q.calm.received;
        still_sink = Quiet-sink pb id (pop_view id t) (pop_view id t') q;
        unasked = q.unasked;
        silent = q.silent;
      }

      go :
          (o : Option Proxy)
          → lookup id t.proxys ≡ o
          → Delivered pb id b (pop_view id t) (pop_view id (data_to_proxy pb id b o t).1)
      go none e = outside (on_proxy_tcp_conn_close pb id t) (rw e refl) (close-PopQuiet pb id t id)
      go (some tcp_proxy) e = own_write t b (lookup id t.tcp) refl (rw e refl)
      go (some (udp_proxy p)) e = outside t (rw e refl) (Quiet-refl pb id _)

  module _ (net : Net) (resolve : Str → Bool) (now : ℕ) where
    kind-Delivered :
        (t : Tunnel) (k : MessageType) (j b : Str)
        → Delivered pb id
            (payload_for id k j b)
            (pop_view id t)
            (pop_view id (dispatch pb net resolve now k j b t).1)
    unfolding dispatch
    kind-Delivered t proxy_session_data j b = elim (Bool-cases (str_eq j id)) [
      | inl e ↦ rw (e, str_eq_sound j id e) (data_own-Delivered t b)
      | inr e ↦ rw e (
          Quiet-Delivered pb id _ _
            (dispatch-PopQuiet net resolve now t proxy_session_data j b (λ h. e)))
    ]
    kind-Delivered t command j b =
        Quiet-Delivered pb id _ _
          (dispatch-PopQuiet net resolve now t command j b (λ h. absurd (cc h)))
    kind-Delivered t proxy_session_create j b =
        Quiet-Delivered pb id _ _
          (dispatch-PopQuiet net resolve now t proxy_session_create j b (λ h. absurd (cc h)))
    kind-Delivered t proxy_session_close j b =
        Quiet-Delivered pb id _ _
          (dispatch-PopQuiet net resolve now t proxy_session_close j b (λ h. absurd (cc h)))
    kind-Delivered t proxy_udp_data j b =
        Quiet-Delivered pb id _ _
          (dispatch-PopQuiet net resolve now t proxy_udp_data j b (λ h. absurd (cc h)))
    kind-Delivered t (other_type n) j b =
        Quiet-Delivered pb id _ _
          (dispatch-PopQuiet net resolve now t (other_type n) j b (λ h. absurd (cc h)))

    -- Whatever arrives, the session gets just the bytes that it carries for it.
    pub message-Delivered :
        (t : Tunnel) (b : Str)
        → Delivered pb id
            (payload_of id (pb.message.unmarshal b))
            (pop_view id t)
            (pop_view id (on_message pb net resolve now b t).1)
    unfolding on_message on_decoded
    message-Delivered t b = go (pb.message.unmarshal b)
      where
        go :
            (o : Option Message)
            → Delivered pb id
                (payload_of id o)
                (pop_view id t)
                (pop_view id (on_decoded pb net resolve now o t).1)
        go none = Quiet-Delivered pb id _ _ (Quiet-refl pb id _)
        go (some m) = kind-Delivered t m.kind m.session_id m.payload
