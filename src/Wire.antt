-- ===== src/Wire.antt =====
-- The messages of ippop/ws/proto/message.proto, which the two ends of a tunnel exchange, and what
-- both ends hold: the websocket's sending side and TCP connections. The generated encoders (proto.Marshal and
-- proto.Unmarshal) are an interface with their documented behaviour.
pub mod Session
pub mod View
pub mod Flow
use titan_ipoverlay.Prelude.{
  ℕ, ◌-◌, ◌≡◌, Bool, true, false, ◌&&◌, Option, none, some, List, [], ◌∷◌, ◌++◌, ltb, if◌then◌else◌,
}
use titan_ipoverlay.Prelude.Str.{Str}
use titan_ipoverlay.Prelude.Exec.{Result, ok, err}

pub data MessageType : Type 0 where
  command proxy_session_create proxy_session_data proxy_session_close : MessageType
  proxy_udp_data : MessageType
  other_type : ℕ → MessageType

pub record Message : Type 0 where
  pub kind : MessageType
  pub session_id : Str
  pub payload : Str

pub record CreateSessionReply : Type 0 where
  pub success : Bool
  pub err_msg : Str

pub record UdpData : Type 0 where
  pub addr : Str
  pub data_bytes : Str

-- Encoding fails on text that is not UTF-8.
pub record Codec (A : Type 0) : Type 0 where
  pub marshal : A → Option Str
  pub unmarshal : Str → Option A
  pub unmarshal-marshal : (a : A) {b : Str} → marshal a ≡ some b → unmarshal b ≡ some a

pub record Pb : Type 0 where
  pub message : Codec Message
  pub dest_addr : Codec Str
  pub create_reply : Codec CreateSessionReply
  pub udp : Codec UdpData

-- `panicked` is a failed type assertion or a call through a nil pointer.
pub data TunnelError : Type 0 where
  conn_nil write_failed marshal_failed unmarshal_failed no_session bad_address : TunnelError
  timed_out dial_failed panicked : TunnelError
  refused : Str → TunnelError

pub data Frame : Type 0 where
  binary ping pong : Str → Frame

-- A *websocket.Conn: whether this end has closed it, and how many more writes succeed.
pub record Link : Type 0 where
  pub is_open : Bool
  pub writable : ℕ

-- The field `conn` of a tunnel, and the frames written to it that have not reached the other end.
pub record Outlet : Type 0 where
  pub conn : Option Link
  pub outbox : List Frame

abbrev pub Written : Type 0 → Type 0
Written S = Result TunnelError (Unit {0}) × S

-- conn.WriteMessage
unfoldable pub write_link : Frame → Link → List Frame → Written Outlet
write_link f l box =
    if l.is_open && ltb 0 l.writable
    then (
      ok tt,
      record { conn = some (record l { writable = l.writable - 1 }); outbox = box ++ (f ∷ []) },
    )
    else (err write_failed, record { conn = some l; outbox = box })

unfoldable pub write_conn : Frame → Option Link → List Frame → Written Outlet
unfolding write_link
write_conn f none box = (err conn_nil, record { conn = none; outbox = box })
write_conn f (some l) box = write_link f l box

-- A write under the guard `t.conn == nil` of write, writePing and writePong.
unfoldable pub write_frame : Frame → Outlet → Written Outlet
unfolding write_conn
write_frame f o = write_conn f o.conn o.outbox

write_marshalled : Option Str → Outlet → Written Outlet
unfolding write_frame
write_marshalled none o = (err marshal_failed, o)
write_marshalled (some b) o = write_frame (binary b) o

-- proto.Marshal of a message, and the write of its bytes.
unfoldable pub send_message : Pb → Message → Outlet → Written Outlet
unfolding write_marshalled
send_message pb m o = write_marshalled (pb.message.marshal m) o

unfoldable pub close_conn : Option Link → Option Link
close_conn none = none
close_conn (some l) = some (record { is_open = false; writable = l.writable })

-- t.conn.Close(), which panics on a nil pointer.
unfoldable pub close_link : Outlet → Written Outlet
unfolding close_conn
close_link o = elim o.conn [
  | none ↦ (err panicked, o)
  | some l ↦ (ok tt, record { conn = close_conn o.conn; outbox = o.outbox })
]

-- A net.Conn: the bytes that were read from it and written to it, whether this program has closed
-- it, and how many more writes succeed.
pub record Sock : Type 0 where
  pub received : Str
  pub written : Str
  pub is_open : Bool
  pub writable : ℕ

unfoldable pub write_sock : Str → Sock → Written Sock
write_sock b s =
    if s.is_open && ltb 0 s.writable
    then (ok tt, record s { written = s.written ++ b; writable = s.writable - 1 })
    else (err write_failed, s)

abbrev pub close_sock : Sock → Sock
close_sock s = record s { is_open = false }

-- What conn.Read has handed over.
abbrev pub took : Str → Sock → Sock
took b s = record s { received = s.received ++ b }
