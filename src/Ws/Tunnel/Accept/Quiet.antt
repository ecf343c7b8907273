-- ===== src/Ws/Tunnel/Accept/Quiet.antt =====
-- The goroutines that leave a session alone at the server's end of a tunnel.
use titan_ipoverlay.Prelude.{
  ℕ, ◌-◌, ◌*◌, ◌≡◌, refl, ap, ◌∙◌, Bool, true, false, Option, none, some, [], ◌∷◌, ◌++◌, ltb,
  if◌then◌else◌, Bool-cases, inl, inr,
}
use titan_ipoverlay.Prelude.Str.{Str, str_eq, str_eq_refl}
use titan_ipoverlay.Prelude.Assoc.{Assoc, lookup, insert, remove, lookup-insert}
use titan_ipoverlay.Prelude.Exec.{ok, err}
use titan_ipoverlay.Wire.{
  Pb, proxy_session_create, Written, Sock, close_sock, took, binary, CreateSessionReply,
}
use titan_ipoverlay.Wire.Session.{Silent-refl, write_frame-Silent}
use titan_ipoverlay.Wire.View.{
  Calm, Calm-refl, Calm-close, Quiet-refl, conn_at, insert-other, insert_self, Read, insert-Calm,
}
use titan_ipoverlay.Ws.Tunnel.{
  Tunnel, TcpProxy, UdpInfo, UdpProxy, Proxy, tcp_proxy, udp_proxy, Wait, writing, selecting,
  replied, set_conn, charge, on_proxy_tcp_conn_close, on_proxy_data_from_proxy,
}
use titan_ipoverlay.Ws.Tunnel.Accept.{
  request_session, request_payload, request_bytes, forget_on_error, TargetInfo, wait_reply,
  enter_select, give_up, accept_reply, with_wait, with_answer, send_extra, store_proxy, proxy_read,
  read_proxy, read_conn, proxy_end, end_proxy, close_read, accept_socks5_udp_data, udp_data_of,
  write_to_dest, udp_bytes, wait_timeout, expire, serve_end, clear_proxys, close_all, close_entry,
  map_option, target_addr, stop_waiting,
}
use titan_ipoverlay.Ws.Tunnel.Effects.{
  tcp_conn, pop_view, PopQuiet, outlet-PopQuiet, insert-PopQuiet, other-PopQuiet, set_udp-PopQuiet,
  remove-PopQuiet, send-PopQuiet, close-PopQuiet, data-PopQuiet, then-PopQuiet,
}

module _ (pb : Pb) (id : Str) where
  pub request-PopQuiet :
      (t : Tunnel) (j : Str) (i : TargetInfo)
      → str_eq j id ≡ false
      → PopQuiet pb id t (request_session pb j i t).1
  unfolding request_session request_payload request_bytes forget_on_error
  request-PopQuiet t j i h = go (pb.dest_addr.marshal (target_addr i))
    where
      forget :
          (o : Written Tunnel) → PopQuiet pb id t o.1 → PopQuiet pb id t (forget_on_error pb j o).1
      forget (ok u, t') q = q
      forget (err e, t') q = q

      sent :
          (d : Str) (o : Option Str)
          → pb.message.marshal (record { kind = proxy_session_create; session_id = j; payload = d })
            ≡ o
          → PopQuiet pb id t (request_bytes pb j o t).1
      sent d none e = Quiet-refl pb id _
      sent d (some c) e = forget _ (
          outlet-PopQuiet pb id t _ (
            write_frame-Silent pb id (binary c) t.outlet
              (rw (pb.message.unmarshal-marshal _ e) refl)
              (rw (pb.message.unmarshal-marshal _ e) (rw h refl))))

      go : (o : Option Str) → PopQuiet pb id t (request_payload pb j o t).1
      go none = Quiet-refl pb id _
      go (some d) = sent d _ refl

  pub wait_reply-PopQuiet : (t : Tunnel) (j : Str) → PopQuiet pb id t (wait_reply pb j t)
  unfolding wait_reply enter_select
  wait_reply-PopQuiet t j = go (lookup j t.wait_list)
    where
      go : (o : Option Wait) → PopQuiet pb id t (enter_select pb j o t)
      go none = Quiet-refl pb id _
      go (some writing) = Quiet-refl pb id _
      go (some selecting) = Quiet-refl pb id _
      go (some (replied c)) = Quiet-refl pb id _

  pub give_up-PopQuiet : (t : Tunnel) (j : Str) → PopQuiet pb id t (give_up pb j t).1
  unfolding give_up
  give_up-PopQuiet t j = Quiet-refl pb id _

  pub accept_reply-PopQuiet :
      (t : Tunnel) (j : Str) (i : TargetInfo)
      → str_eq j id ≡ false
      → PopQuiet pb id t (accept_reply pb j i t).1
  unfolding accept_reply with_wait with_answer send_extra
  accept_reply-PopQuiet t j i h = go (lookup j t.wait_list)
    where
      t' : Tunnel
      t' = stop_waiting j t

      extra : (b : Str) → PopQuiet pb id t (send_extra pb j b t')
      extra [] = Quiet-refl pb id _
      extra (x ∷ xs) = data-PopQuiet pb id t' j (x ∷ xs) h

      answer : (r : CreateSessionReply) → PopQuiet pb id t (with_answer pb j i (some r) t').1
      answer r = elim (Bool-cases r.success) [
        | inl e ↦ rw e (extra i.extra_bytes)
        | inr e ↦ rw e (Quiet-refl pb id _)
      ]

      decoded : (o : Option CreateSessionReply) → PopQuiet pb id t (with_answer pb j i o t').1
      decoded none = Quiet-refl pb id _
      decoded (some r) = answer r

      go : (o : Option Wait) → PopQuiet pb id t (with_wait pb j i o t).1
      go none = Quiet-refl pb id _
      go (some writing) = Quiet-refl pb id _
      go (some selecting) = Quiet-refl pb id _
      go (some (replied c)) = decoded (pb.create_reply.unmarshal c)

  pub store-PopQuiet :
      (t : Tunnel) (j : Str) (i : TargetInfo) (c : Sock)
      → str_eq j id ≡ false
      → PopQuiet pb id t (store_proxy pb j i c t)
  unfolding store_proxy
  store-PopQuiet t j i c h = record {
    calm = rw (insert-other tcp_conn j id _ t.tcp h) (Calm-refl _);
    still_member = rw (lookup-insert j id tcp_proxy t.proxys, h) (λ e. e);
    unasked = λ h. h;
    silent = Silent-refl pb id t.outlet;
  }

  pub read-PopQuiet :
      (t : Tunnel) (j b : Str) → str_eq j id ≡ false → PopQuiet pb id t (proxy_read pb j b t)
  unfolding proxy_read read_proxy read_conn
  read-PopQuiet t j b h = go (lookup j t.tcp)
    where
      to : (p : TcpProxy) (c : Option Sock) → PopQuiet pb id t (read_conn pb j b p c t)
      to p none = Quiet-refl pb id _
      to p (some s) =
          let u = charge p.user_name b (set_conn j p (took b s) t) in
          then-PopQuiet pb id t u (on_proxy_data_from_proxy pb j b u) (other-PopQuiet pb id t j _ h)
            (data-PopQuiet pb id u j b h)

      go : (o : Option TcpProxy) → PopQuiet pb id t (read_proxy pb j b o t)
      go none = Quiet-refl pb id _
      go (some p) = to p p.conn

  pub end-PopQuiet : (t : Tunnel) (j : Str) → PopQuiet pb id t (proxy_end pb j t)
  unfolding proxy_end end_proxy close_read on_proxy_tcp_conn_close
  end-PopQuiet t j = go (lookup j t.tcp) refl
    where
      close :
          (u : Tunnel) (p : TcpProxy) (c : Option Sock)
          → p.conn ≡ c
          → lookup j u.tcp ≡ some p
          → PopQuiet pb id u (close_read pb j p c u)
      close u p none h e = Quiet-refl pb id _
      close u p (some s) h e = insert-PopQuiet pb id u j _ (rw (e, h) (Calm-close s))

      told : (b : Bool) → Tunnel
      told b = if b then t else on_proxy_tcp_conn_close pb j t

      telling : (b : Bool) → PopQuiet pb id t (told b)
      telling true = Quiet-refl pb id _
      telling false = close-PopQuiet pb id t j

      same_tcp : (b : Bool) → (told b).tcp ≡ t.tcp
      same_tcp true = refl
      same_tcp false = refl

      go : (o : Option TcpProxy) → lookup j t.tcp ≡ o → PopQuiet pb id t (end_proxy pb j o t)
      go none e = Quiet-refl pb id _
      go (some p) e =
          let u = told p.is_close_by_client in
          let w = close_read pb j p p.conn u in
          then-PopQuiet pb id t w (record w { proxys = remove j w.proxys })
            (then-PopQuiet pb id t u w (telling p.is_close_by_client)
              (close u p p.conn refl (ap (lookup j) (same_tcp p.is_close_by_client) ∙ e)))
            (remove-PopQuiet pb id w j)

  pub udp_data-PopQuiet :
      (session_of : Str → Str) (now timeout : ℕ) (i : UdpInfo) (n : ℕ) (b : Str) (t : Tunnel)
      → PopQuiet pb id t (accept_socks5_udp_data pb session_of now timeout i n b t).1
  unfolding accept_socks5_udp_data udp_data_of write_to_dest udp_bytes
  udp_data-PopQuiet session_of now timeout i n b t = go (lookup j t.proxys)
    where
      j : Str
      j = session_of (i.udp_server_id ++ (i.src ++ i.dest))

      bytes_of : (u : Tunnel) (c : Option Str) → PopQuiet pb id u (udp_bytes pb j c u).1
      bytes_of u none = Quiet-refl pb id _
      bytes_of u (some c) = send-PopQuiet pb id u _ refl refl

      write : (u : Tunnel) (p : UdpProxy) → PopQuiet pb id u (write_to_dest pb now j p b u).1
      write u p =
          let w = record u {
            proxys = insert j (udp_proxy (record p { active_time = now })) u.proxys;
          } in
          then-PopQuiet pb id u w (write_to_dest pb now j p b u).1 (set_udp-PopQuiet pb id u j _) (
            bytes_of (charge p.udp_info.user_name b w)
              (pb.udp.marshal (record { addr = p.udp_info.dest; data_bytes = b })))

      go : (o : Option Proxy) → PopQuiet pb id t (udp_data_of pb now timeout j i n b o t).1
      go none =
          let p : UdpProxy = record {
            udp_info = i;
            active_time = now;
            timeout = timeout;
            sent = [];
            writable = n;
          } in
          let w = record t { proxys = insert j (udp_proxy p) t.proxys } in
          then-PopQuiet pb id t w (write_to_dest pb now j p b w).1 (set_udp-PopQuiet pb id t j _)
            (write w p)
      go (some tcp_proxy) = Quiet-refl pb id _
      go (some (udp_proxy p)) = write t p

  pub timeout-PopQuiet :
      (t : Tunnel) (now : ℕ) (j : Str) → PopQuiet pb id t (wait_timeout pb now j t)
  unfolding wait_timeout expire
  timeout-PopQuiet t now j = go (lookup j t.proxys)
    where
      by : (c : Bool) → PopQuiet pb id t (if c then record t { proxys = remove j t.proxys } else t)
      by true = remove-PopQuiet pb id t j
      by false = Quiet-refl pb id _

      go : (o : Option Proxy) → PopQuiet pb id t (expire pb now j o t)
      go none = Quiet-refl pb id _
      go (some tcp_proxy) = Quiet-refl pb id _
      go (some (udp_proxy p)) = by (ltb (p.timeout * 1000) (now - p.active_time))

  entry-Calm :
      (p : Proxy) (j : Str) (o : Option TcpProxy) (m : Assoc TcpProxy)
      → lookup j m ≡ o
      → Calm
          (conn_at tcp_conn (lookup id m))
          (conn_at tcp_conn (lookup id (close_entry pb p j o m)))
  unfolding close_entry map_option
  entry-Calm tcp_proxy j none m e = Calm-refl _
  entry-Calm (udp_proxy q) j o m e = Calm-refl _
  entry-Calm tcp_proxy j (some p) m e = insert-Calm tcp_conn j id _ m (rw e (close p.conn))
    where
      close : (c : Option Sock) → Calm c (map_option close_sock c)
      close none = Calm-refl _
      close (some s) = Calm-close s

  Calm-trans : (a b c : Option Sock) → Calm a b → Calm b c → Calm a c
  Calm-trans a b c f g = record {
    received = g.received ∙ f.received;
    written = g.written ∙ f.written;
    open_before = λ h. f.open_before (g.open_before h);
  }

  all-Calm :
      (ps : Assoc Proxy) (m : Assoc TcpProxy)
      → Calm (conn_at tcp_conn (lookup id m)) (conn_at tcp_conn (lookup id (close_all pb ps m)))
  unfolding close_all
  all-Calm [] m = Calm-refl _
  all-Calm ((j, p) ∷ ps) m = Calm-trans _ _ _ (entry-Calm p j (lookup j m) m refl) (all-Calm ps _)

  pub serve_end-PopQuiet : (t : Tunnel) → PopQuiet pb id t (serve_end pb t)
  unfolding serve_end clear_proxys lookup
  serve_end-PopQuiet t = record {
    calm = all-Calm t.proxys t.tcp;
    still_member = λ h. absurd (cc h);
    unasked = λ h. h;
    silent = record { link = λ h. absurd (cc h); no_bytes = refl; no_request = refl };
  }

  -- A round of the session's own proxyConn.
  pub own_frame-Read :
      (t : Tunnel) (b : Str) (p : TcpProxy) (c : Sock)
      → lookup id t.tcp ≡ some p
      → p.conn ≡ some c
      → Read pb id b (pop_view id t) (pop_view id (proxy_read pb id b t))
  unfolding proxy_read read_proxy read_conn on_proxy_data_from_proxy
  own_frame-Read t b p c e h =
      rw (e, h)
        (record {
          received = rw own refl;
          written = rw own refl;
          still_sink = rw own (λ k. k);
          unasked = λ h. h;
          sent = refl;
        })
    where
      own :
          conn_at tcp_conn (lookup id (insert id (record p { conn = some (took b c) }) t.tcp))
          ≡ some (took b c)
      own = insert_self tcp_conn id id _ t.tcp (str_eq_refl id)
