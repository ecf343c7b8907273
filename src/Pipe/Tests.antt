-- ===== src/Pipe/Tests.antt =====
-- Runs of an established session, and the properties of both ends of a tunnel at them.
use titan_ipoverlay.Prelude.{◌≡◌, refl, true, false, List, [], ◌∷◌, ◌++◌, arith}
use titan_ipoverlay.Ws.Tunnel.Accept.{
  TargetInfo, target_addr, wait_reply, request_session, new_tunnel, accept_reply, store_proxy,
}
use titan_ipoverlay.Client.Tunnel.{Tunnel as NodeTunnel}
use titan_ipoverlay.Client.Tunnel.Messages.{create_proxy_session, create_proxy_session_reply}
use titan_ipoverlay.Client.Tunnel.End.{connected}
use titan_ipoverlay.Ws.Tunnel.Messages.{on_message}
use titan_ipoverlay.Prelude.Str.{Str, str_eq, codes}
use titan_ipoverlay.Prelude.Assoc.{lookup, insert}
use titan_ipoverlay.Prelude.Exec.{ok, err}
use titan_ipoverlay.Wire.{
  Frame, binary, proxy_session_data, proxy_session_create, panicked, send_message, write_frame,
  write_sock,
}
use titan_ipoverlay.Wire.Session.{received_of, written_of}
use titan_ipoverlay.Client.Tunnel.{write_tcp}
use titan_ipoverlay.Ws.Tunnel.{
  on_proxy_data_from_proxy, on_proxy_session_create_reply, Tunnel as PopTunnel,
  keepalive as pop_keepalive,
}
use titan_ipoverlay.Ws.Tunnel.Accept.{proxy_read}
use titan_ipoverlay.Ws.Tunnel.Effects.{pop_view}
use titan_ipoverlay.Client.Tunnel.Effects.{node_view}
use titan_ipoverlay.Client.Tunnel.Messages.{on_tunnel_msg, on_proxy_session_data_from_tunnel}
use titan_ipoverlay.Pipe.{System, node_frame, pop_frame}
use titan_ipoverlay.Pipe.Carries.{Encodable}
use titan_ipoverlay.Pipe.Steps.{
  Step, PopMove, Reach, here, later, pop_runs, to_node, pop_rest, node_rest,
}
use titan_ipoverlay.Pipe.Steps.Invariant.{
  Established, Follows, Step-Channels, Reach-in_order, Reach-complete,
}
use titan_ipoverlay.Pipe.Silence.{
  is_up, silence, pop_timer, node_timer, keepalive-closes, keepalive-twice,
}
use titan_ipoverlay.Pipe.Samples.{
  sample_env, sample_id, sample_system, sample_link, put_message, put_reply, fresh_sock,
}

sample_encodes : Encodable sample_env.pb sample_id
sample_encodes b = (_, refl)

sample_Established : Established sample_env sample_id sample_encodes sample_system
unfolding lookup str_eq
sample_Established = record { up = refl; down = refl; unasked = refl; no_request = refl }

-- Two new tunnels whose server is asked for a session: the request arrives, the node dials and
-- replies, the server takes the reply and stores the proxy. The session is then established.
abbrev target : TargetInfo
target = record { domain_name = codes "a.b"; port = 80; user_name = []; extra_bytes = [] }

abbrev request : Str
request = target_addr target

abbrev request_frame : Frame
request_frame = binary (
    put_message (record { kind = proxy_session_create; session_id = sample_id; payload = request }))

abbrev reply_frame : Frame
reply_frame = binary (
    put_message
      (record { kind = proxy_session_create; session_id = sample_id; payload = put_reply true [] }))

abbrev requested : PopTunnel
requested =
    wait_reply sample_env.pb sample_id
      (request_session sample_env.pb sample_id target (new_tunnel sample_link)).1

abbrev dialed : NodeTunnel
dialed =
    (create_proxy_session sample_env.pb sample_env.dialer sample_id request
      (record (node_frame sample_env request_frame (connected sample_link 60)) { started = [] })).1

abbrev accepted : PopTunnel
accepted =
    (accept_reply sample_env.pb sample_id target
      (pop_frame sample_env 0 reply_frame (pop_rest [] requested))).1

abbrev after_handshake : System
after_handshake = record {
  pop = store_proxy sample_env.pb sample_id target fresh_sock accepted;
  node = node_rest [] dialed;
}

request_sent : requested.outlet.outbox ≡ request_frame ∷ []
unfolding wait_reply request_session lookup str_eq write_frame insert
request_sent = refl

reply_sent : dialed.outlet.outbox ≡ reply_frame ∷ []
unfolding lookup str_eq node_frame on_tunnel_msg create_proxy_session create_proxy_session_reply
    send_message write_frame insert
reply_sent = refl

after_handshake-Established : Established sample_env sample_id sample_encodes after_handshake
unfolding lookup str_eq node_frame on_tunnel_msg create_proxy_session create_proxy_session_reply
    send_message write_frame insert wait_reply request_session pop_frame on_message
    on_proxy_session_create_reply accept_reply store_proxy
after_handshake-Established = record { up = refl; down = refl; unasked = refl; no_request = refl }

-- The server reads five bytes of its client, and the frame arrives.
abbrev hello : Str
hello = codes "hello"

abbrev after_read : System
after_read = record sample_system {
  pop = proxy_read sample_env.pb sample_id hello sample_system.pop;
}

read-Step : Step sample_env sample_id sample_system after_read
unfolding lookup str_eq
read-Step = pop_runs (PopMove.reads sample_id hello _ _ refl refl)

abbrev hello_frame : Frame
hello_frame =
    binary
      (put_message (record { kind = proxy_session_data; session_id = sample_id; payload = hello }))

abbrev arrived : System
arrived = record {
  pop = pop_rest [] after_read.pop;
  node = node_frame sample_env hello_frame sample_system.node;
}

arrive-Step : Step sample_env sample_id after_read arrived
unfolding proxy_read on_proxy_data_from_proxy send_message write_frame lookup insert str_eq
arrive-Step = to_node hello_frame [] refl

sample_Reach : Reach sample_env sample_id sample_system arrived
sample_Reach = later (later here read-Step) arrive-Step

Step-Channels_example : Follows sample_env sample_id sample_encodes sample_system after_read
Step-Channels_example =
    Step-Channels sample_env sample_id sample_encodes sample_system after_read sample_Established
      read-Step

Reach-in_order_example :
    ((rest : Str) × (written_of (node_view sample_id arrived.node).sock ++ rest
        ≡ received_of (pop_view sample_id arrived.pop).sock))
    × ((rest : Str) × (written_of (pop_view sample_id arrived.pop).sock ++ rest
          ≡ received_of (node_view sample_id arrived.node).sock))
Reach-in_order_example =
    Reach-in_order sample_env sample_id sample_encodes sample_system arrived sample_Established
      sample_Reach

Reach-complete_example :
    (written_of (node_view sample_id arrived.node).sock
      ≡ received_of (pop_view sample_id arrived.pop).sock)
    × (written_of (pop_view sample_id arrived.pop).sock
        ≡ received_of (node_view sample_id arrived.node).sock)
unfolding proxy_read on_proxy_data_from_proxy send_message write_frame lookup insert str_eq
    node_frame on_tunnel_msg on_proxy_session_data_from_tunnel write_tcp write_sock
Reach-complete_example =
    Reach-complete sample_env sample_id sample_encodes sample_system arrived sample_Established
      sample_Reach (refl, refl, refl) (refl, refl, refl)

-- The bytes are at the destination.
hello_arrived : written_of (node_view sample_id arrived.node).sock ≡ hello
unfolding proxy_read on_proxy_data_from_proxy send_message write_frame lookup insert str_eq
    node_frame on_tunnel_msg on_proxy_session_data_from_tunnel write_tcp write_sock
hello_arrived = refl

abbrev five_ticks : List Str
five_ticks = [] ∷ [] ∷ [] ∷ [] ∷ [] ∷ []

keepalive-closes_example :
    (is_up (silence pop_timer five_ticks sample_system.pop).outlet.conn ≡ false)
    × (is_up (silence node_timer five_ticks sample_system.node).outlet.conn ≡ false)
keepalive-closes_example =
    keepalive-closes five_ticks sample_system.pop sample_system.node (omega arith) (omega arith)
      (omega arith) (omega arith)

abbrev two_ticks : List Str
two_ticks = [] ∷ [] ∷ []

abbrev late_pop : PopTunnel
late_pop = record sample_system.pop { wait_pong = 4 }

keepalive-twice_example :
    ((pop_keepalive [] late_pop).0 ≡ ok tt)
    × ((pop_keepalive [] (pop_keepalive [] late_pop).1).0 ≡ err panicked)
keepalive-twice_example = keepalive-twice [] [] late_pop sample_link refl (omega arith)
