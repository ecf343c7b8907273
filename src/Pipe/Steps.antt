-- ===== src/Pipe/Steps.antt =====
-- The steps of a server's tunnel and its node, of one session and of all others, in any order.
pub mod Frames
pub mod Invariant
use titan_ipoverlay.Prelude.{ℕ, ◌≡◌, Bool, true, false, Option, none, some, List, [], ◌∷◌, ◌++◌}
use titan_ipoverlay.Prelude.Str.{Str, str_eq}
use titan_ipoverlay.Prelude.Assoc.{lookup}
use titan_ipoverlay.Wire.{Pb, Frame, Sock}
use titan_ipoverlay.Ws.Tunnel.{
  Tunnel as PopTunnel, TcpProxy as PopProxy, UdpInfo, keepalive as pop_keepalive,
}
use titan_ipoverlay.Ws.Tunnel.Accept.{
  TargetInfo, request_session, wait_reply, give_up, accept_reply, store_proxy,
  proxy_read as pop_read, proxy_end as pop_end, accept_socks5_udp_data, wait_timeout,
  serve_end as pop_serve_end,
}
use titan_ipoverlay.Client.Tunnel.{
  Tunnel as NodeTunnel, TcpProxy as NodeProxy, keepalive as node_keepalive,
}
use titan_ipoverlay.Client.Tunnel.Messages.{
  create_proxy_session, proxy_read as node_read, proxy_end as node_end,
}
use titan_ipoverlay.Client.Tunnel.End.{udp_read, udp_end, destroy, serve_end as node_serve_end}
use titan_ipoverlay.Pipe.{System, Env, node_frame, pop_frame}

abbrev pub pop_rest : List Frame → PopTunnel → PopTunnel
pop_rest rest t = record t { outlet = record t.outlet { outbox = rest } }

abbrev pub node_rest : List Frame → NodeTunnel → NodeTunnel
node_rest rest t = record t { outlet = record t.outlet { outbox = rest } }

-- `id` is the id of an established session: uuid.NewString gives no later request the same one.
module _ (e : Env) (id : Str) where
  -- A goroutine of the server runs up to where it waits.
  pub data PopMove (t : PopTunnel) : PopTunnel → Type 0 where
    requests :
        (j : Str) (i : TargetInfo) → str_eq j id ≡ false → PopMove t (request_session e.pb j i t).1
    waits : (j : Str) → PopMove t (wait_reply e.pb j t)
    gives_up : (j : Str) → PopMove t (give_up e.pb j t).1
    accepts :
        (j : Str) (i : TargetInfo) → str_eq j id ≡ false → PopMove t (accept_reply e.pb j i t).1
    stores :
        (j : Str) (i : TargetInfo) (c : Sock)
        → str_eq j id ≡ false
        → PopMove t (store_proxy e.pb j i c t)
    reads :
        (j b : Str) (p : PopProxy) (c : Sock)
        → lookup j t.tcp ≡ some p
        → p.conn ≡ some c
        → PopMove t (pop_read e.pb j b t)
    ends : (j : Str) → PopMove t (pop_end e.pb j t)
    datagram :
        (now timeout : ℕ) (i : UdpInfo) (n : ℕ) (b : Str)
        → PopMove t (accept_socks5_udp_data e.pb e.session_of now timeout i n b t).1
    times_out : (now : ℕ) (j : Str) → PopMove t (wait_timeout e.pb now j t)
    pop_ticks : (now : Str) → PopMove t (pop_keepalive now t).1
    pop_stops : PopMove t (pop_serve_end e.pb t)

  -- A goroutine of the node runs up to where it waits.
  pub data NodeMove (t : NodeTunnel) : NodeTunnel → Type 0 where
    creates :
        (before after : List (Str × Str)) (j b : Str)
        → t.started ≡ before ++ ((j, b) ∷ after)
        → NodeMove t
            (create_proxy_session e.pb e.dialer j b (record t { started = before ++ after })).1
    reads :
        (j b : Str) (p : NodeProxy) (c : Sock)
        → lookup j t.tcp ≡ some p
        → p.conn ≡ some c
        → NodeMove t (node_read e.pb j b t)
    ends : (j : Str) → NodeMove t (node_end e.pb j t)
    datagram : (j b : Str) → NodeMove t (udp_read e.pb j b t)
    times_out : (j : Str) → NodeMove t (udp_end j t)
    node_ticks : (now : Str) → NodeMove t (node_keepalive now t).1
    node_stops : NodeMove t (node_serve_end t).1
    destroyed : NodeMove t (destroy t).1

  pub data Step (s : System) : System → Type 0 where
    pop_runs : {t : PopTunnel} → PopMove s.pop t → Step s (record s { pop = t })
    node_runs : {t : NodeTunnel} → NodeMove s.node t → Step s (record s { node = t })
    to_node :
        (f : Frame) (rest : List Frame)
        → s.pop.outlet.outbox ≡ f ∷ rest
        → Step s (record { pop = pop_rest rest s.pop; node = node_frame e f s.node })
    to_pop :
        (now : ℕ) (f : Frame) (rest : List Frame)
        → s.node.outlet.outbox ≡ f ∷ rest
        → Step s (record { pop = pop_frame e now f s.pop; node = node_rest rest s.node })

  pub data Reach (start : System) : System → Type 0 where
    here : Reach start start
    later : {s t : System} → Reach start s → Step s t → Reach start t
