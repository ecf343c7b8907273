-- ===== src/Pipe/Steps/Frames.antt =====
-- What a step of one end of a tunnel is to a session: quiet, or a read, or the arrival of a frame.
use titan_ipoverlay.Prelude.{
  ℕ, ◌≡◌, false, some, List, [], ◌∷◌, ◌++◌, Bool-cases, ◌⊎◌, inl, inr, arith,
}
use titan_ipoverlay.Prelude.Str.{Str, str_eq, str_eq_sound}
use titan_ipoverlay.Prelude.Assoc.{lookup}
use titan_ipoverlay.Wire.{Frame, binary, ping, pong, Sock}
use titan_ipoverlay.Wire.Session.{part, asks}
use titan_ipoverlay.Wire.View.{View, Quiet, Quiet-refl, Quiet-Delivered, Read, Delivered}
use titan_ipoverlay.Ws.Tunnel.{Tunnel as PopTunnel, TcpProxy as PopProxy}
use titan_ipoverlay.Ws.Tunnel.Effects.{pop_view, ping-PopQuiet, pong-PopQuiet, keepalive-PopQuiet}
use titan_ipoverlay.Ws.Tunnel.Messages.Quiet.{message-Delivered as pop_message-Delivered}
use titan_ipoverlay.Ws.Tunnel.Accept.{proxy_read as pop_read}
use titan_ipoverlay.Ws.Tunnel.Accept.Quiet.{
  request-PopQuiet, wait_reply-PopQuiet, give_up-PopQuiet, accept_reply-PopQuiet, store-PopQuiet,
  read-PopQuiet, own_frame-Read as pop_read_own-Read, end-PopQuiet, udp_data-PopQuiet,
  timeout-PopQuiet, serve_end-PopQuiet,
}
use titan_ipoverlay.Client.Tunnel.{Tunnel as NodeTunnel, TcpProxy as NodeProxy}
use titan_ipoverlay.Client.Tunnel.Effects.{
  node_view, has_started, NodeQuiet, then-NodeQuiet, ping-NodeQuiet, pong-NodeQuiet,
  keepalive-NodeQuiet,
}
use titan_ipoverlay.Client.Tunnel.Messages.{create_proxy_session, proxy_read as node_read}
use titan_ipoverlay.Client.Tunnel.Messages.Quiet.{create-NodeQuiet}
use titan_ipoverlay.Client.Tunnel.Messages.Reads.{
  read-NodeQuiet, own_frame-Read as node_read_own-Read, end-NodeQuiet,
}
use titan_ipoverlay.Client.Tunnel.Messages.Delivery.{message-Delivered as node_message-Delivered}
use titan_ipoverlay.Client.Tunnel.End.Quiet.{
  udp_read-NodeQuiet, udp_end-NodeQuiet, serve_end-NodeQuiet, destroy-NodeQuiet,
}
use titan_ipoverlay.Pipe.{Env, node_frame, pop_frame}
use titan_ipoverlay.Pipe.Steps.{PopMove, NodeMove}

module _ (e : Env) (id : Str) where
  abbrev pub Moved : View → View → Type 0
  Moved v v' = Quiet e.pb id v v' ⊎ ((b : Str) × Read e.pb id b v v')

  pop_reads :
      (t : PopTunnel) (j b : Str) (p : PopProxy) (c : Sock)
      → lookup j t.tcp ≡ some p
      → p.conn ≡ some c
      → Moved (pop_view id t) (pop_view id (pop_read e.pb j b t))
  pop_reads t j b p c h g = elim (Bool-cases (str_eq j id)) [
    | inl k ↦
        let same = str_eq_sound j id k in
        let h' = rw same at h in rw same (inr (b, pop_read_own-Read e.pb id t b p c h' g))
    | inr k ↦ inl (read-PopQuiet e.pb id t j b k)
  ]

  pub pop_Moved : (t t' : PopTunnel) → PopMove e id t t' → Moved (pop_view id t) (pop_view id t')
  pop_Moved t _ (PopMove.requests j i h) = inl (request-PopQuiet e.pb id t j i h)
  pop_Moved t _ (PopMove.waits j) = inl (wait_reply-PopQuiet e.pb id t j)
  pop_Moved t _ (PopMove.gives_up j) = inl (give_up-PopQuiet e.pb id t j)
  pop_Moved t _ (PopMove.accepts j i h) = inl (accept_reply-PopQuiet e.pb id t j i h)
  pop_Moved t _ (PopMove.stores j i c h) = inl (store-PopQuiet e.pb id t j i c h)
  pop_Moved t _ (PopMove.reads j b p c h g) = pop_reads t j b p c h g
  pop_Moved t _ (PopMove.ends j) = inl (end-PopQuiet e.pb id t j)
  pop_Moved t _ (PopMove.datagram now n i k b) =
      inl (udp_data-PopQuiet e.pb id e.session_of now n i k b t)
  pop_Moved t _ (PopMove.times_out now j) = inl (timeout-PopQuiet e.pb id t now j)
  pop_Moved t _ (PopMove.pop_ticks now) = inl (keepalive-PopQuiet e.pb id t now)
  pop_Moved t _ PopMove.pop_stops = inl (serve_end-PopQuiet e.pb id t)

  node_reads :
      (t : NodeTunnel) (j b : Str) (p : NodeProxy) (c : Sock)
      → lookup j t.tcp ≡ some p
      → p.conn ≡ some c
      → Moved (node_view id t) (node_view id (node_read e.pb j b t))
  node_reads t j b p c h g = elim (Bool-cases (str_eq j id)) [
    | inl k ↦
        let same = str_eq_sound j id k in
        let h' = rw same at h in rw same (inr (b, node_read_own-Read e.pb id t b p c h' g))
    | inr k ↦ inl (read-NodeQuiet e.pb id t j b k)
  ]

  -- A goroutine that is taken from those that have been started was none of the session's.
  took_started :
      (before after : List (Str × Str)) (j b : Str)
      → has_started id (before ++ ((j, b) ∷ after)) ≡ false
      → (str_eq j id ≡ false) × (has_started id (before ++ after) ≡ false)
  took_started [] after j b h = ground arith
  took_started ((i, c) ∷ before) after j b h = ground (arith, took_started before after j b)

  creates_Quiet :
      (t : NodeTunnel) (before after : List (Str × Str)) (j b : Str)
      → has_started id t.started ≡ false
      → t.started ≡ before ++ ((j, b) ∷ after)
      → NodeQuiet e.pb id t
          (create_proxy_session e.pb e.dialer j b (record t { started = before ++ after })).1
  creates_Quiet t before after j b n h =
      let n' = rw h at n in
      let (other, rest) = took_started before after j b n' in
      let u = record t { started = before ++ after } in
      then-NodeQuiet e.pb id t u (create_proxy_session e.pb e.dialer j b u).1
        (record {
          calm = (Quiet-refl e.pb id (node_view id t)).calm;
          still_member = λ k. k;
          unasked = λ k. absurd (cc (k, rest));
          silent = (Quiet-refl e.pb id (node_view id t)).silent;
        })
        (create-NodeQuiet e.pb id e.dialer u j b other)

  pub node_Moved :
      (t t' : NodeTunnel)
      → has_started id t.started ≡ false
      → NodeMove e id t t'
      → Moved (node_view id t) (node_view id t')
  node_Moved t _ n (NodeMove.creates before after j b h) =
      inl (creates_Quiet t before after j b n h)
  node_Moved t _ n (NodeMove.reads j b p c h g) = node_reads t j b p c h g
  node_Moved t _ n (NodeMove.ends j) = inl (end-NodeQuiet e.pb id t j)
  node_Moved t _ n (NodeMove.datagram j b) = inl (udp_read-NodeQuiet e.pb id t j b)
  node_Moved t _ n (NodeMove.times_out j) = inl (udp_end-NodeQuiet e.pb id t j)
  node_Moved t _ n (NodeMove.node_ticks now) = inl (keepalive-NodeQuiet e.pb id t now)
  node_Moved t _ n NodeMove.node_stops = inl (serve_end-NodeQuiet e.pb id t)
  node_Moved t _ n NodeMove.destroyed = inl (destroy-NodeQuiet e.pb id t)

  pub pop_frame-Delivered :
      (t : PopTunnel) (now : ℕ) (f : Frame)
      → Delivered e.pb id (part e.pb id f) (pop_view id t) (pop_view id (pop_frame e now f t))
  unfolding pop_frame
  pop_frame-Delivered t now (binary b) = pop_message-Delivered e.pb id e.net e.resolve now t b
  pop_frame-Delivered t now (ping b) = Quiet-Delivered e.pb id _ _ (ping-PopQuiet e.pb id t b)
  pop_frame-Delivered t now (pong b) = Quiet-Delivered e.pb id _ _ (pong-PopQuiet e.pb id t b)

  pub node_frame-Delivered :
      (t : NodeTunnel) (f : Frame)
      → asks e.pb id f ≡ false
      → Delivered e.pb id (part e.pb id f) (node_view id t) (node_view id (node_frame e f t))
  unfolding node_frame
  node_frame-Delivered t (binary b) h = node_message-Delivered e.pb id e.dialer t b h
  node_frame-Delivered t (ping b) h = Quiet-Delivered e.pb id _ _ (ping-NodeQuiet e.pb id t b)
  node_frame-Delivered t (pong b) h = Quiet-Delivered e.pb id _ _ (pong-NodeQuiet e.pb id t b)
