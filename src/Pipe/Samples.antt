-- ===== src/Pipe/Samples.antt =====
-- A system with an established session, over a simple encoding of messages.
use titan_ipoverlay.Prelude.{
  ℕ, zero, suc, ◌≡◌, refl, Bool, true, false, Option, none, some, [], ◌∷◌, ◌++◌, length, take, drop,
  take-append, drop-append,
}
use titan_ipoverlay.Prelude.Str.{Str}
use titan_ipoverlay.Prelude.Exec.{ok}
use titan_ipoverlay.Wire.{
  Pb, Codec, Message, MessageType, command, proxy_session_create, proxy_session_data,
  proxy_session_close, proxy_udp_data, other_type, CreateSessionReply, UdpData, Link, Sock,
}
use titan_ipoverlay.Ws.Tunnel.{tcp_proxy}
use titan_ipoverlay.Pipe.{System, Env}

abbrev pub kind_code : MessageType → ℕ
kind_code command = 0
kind_code proxy_session_create = 1
kind_code proxy_session_data = 2
kind_code proxy_session_close = 3
kind_code proxy_udp_data = 4
kind_code (other_type n) = suc (suc (suc (suc (suc n))))

abbrev pub kind_of : ℕ → MessageType
kind_of zero = command
kind_of (suc zero) = proxy_session_create
kind_of (suc (suc zero)) = proxy_session_data
kind_of (suc (suc (suc zero))) = proxy_session_close
kind_of (suc (suc (suc (suc zero)))) = proxy_udp_data
kind_of (suc (suc (suc (suc (suc n))))) = other_type n

kind_of-kind_code : (k : MessageType) → kind_of (kind_code k) ≡ k
kind_of-kind_code command = refl
kind_of-kind_code proxy_session_create = refl
kind_of-kind_code proxy_session_data = refl
kind_of-kind_code proxy_session_close = refl
kind_of-kind_code proxy_udp_data = refl
kind_of-kind_code (other_type n) = refl

abbrev pub put_message : Message → Str
put_message m = kind_code m.kind ∷ length m.session_id ∷ (m.session_id ++ m.payload)

abbrev pub get_message : Str → Option Message
get_message (k ∷ n ∷ rest) =
    some (record { kind = kind_of k; session_id = take n rest; payload = drop n rest })
get_message _ = none

pub get-put : (m : Message) → get_message (put_message m) ≡ some m
get-put m =
    rw
      (
        kind_of-kind_code m.kind,
        take-append m.session_id m.payload,
        drop-append m.session_id m.payload,
      )
      refl

pub some_eq : (A : Type 0) (a b : A) → ◌≡◌ {A = Option A} (some a) (some b) → b ≡ a
some_eq A a b h = cc

abbrev pub message_codec : Codec Message
message_codec = record {
  marshal = λ m. some (put_message m);
  unmarshal = get_message;
  unmarshal-marshal = λ m h. rw (some_eq Str _ _ h) (get-put m);
}

abbrev pub text_codec : Codec Str
text_codec = record {
  marshal = λ s. some s;
  unmarshal = λ s. some s;
  unmarshal-marshal = λ s h. rw (some_eq Str _ _ h) refl;
}

abbrev pub get_reply : Str → Option CreateSessionReply
get_reply (zero ∷ e) = some (record { success = false; err_msg = e })
get_reply ((suc n) ∷ e) = some (record { success = true; err_msg = e })
get_reply [] = none

abbrev pub put_reply : Bool → Str → Str
put_reply false e = 0 ∷ e
put_reply true e = 1 ∷ e

pub get-put_reply :
    (b : Bool) (e : Str) → get_reply (put_reply b e) ≡ some (record { success = b; err_msg = e })
get-put_reply false e = refl
get-put_reply true e = refl

abbrev pub reply_codec : Codec CreateSessionReply
reply_codec = record {
  marshal = λ r. some (put_reply r.success r.err_msg);
  unmarshal = get_reply;
  unmarshal-marshal = λ r h. rw (some_eq Str _ _ h) (get-put_reply r.success r.err_msg);
}

abbrev pub put_udp : UdpData → Str
put_udp d = length d.addr ∷ (d.addr ++ d.data_bytes)

abbrev pub get_udp : Str → Option UdpData
get_udp [] = none
get_udp (n ∷ rest) = some (record { addr = take n rest; data_bytes = drop n rest })

pub get-put_udp : (d : UdpData) → get_udp (put_udp d) ≡ some d
get-put_udp d = rw (take-append d.addr d.data_bytes, drop-append d.addr d.data_bytes) refl

abbrev pub udp_codec : Codec UdpData
udp_codec = record {
  marshal = λ d. some (put_udp d);
  unmarshal = get_udp;
  unmarshal-marshal = λ d h. rw (some_eq Str _ _ h) (get-put_udp d);
}

abbrev pub sample_pb : Pb
sample_pb = record {
  message = message_codec;
  dest_addr = text_codec;
  create_reply = reply_codec;
  udp = udp_codec;
}

abbrev pub fresh_sock : Sock
fresh_sock = record { received = []; written = []; is_open = true; writable = 5 }

abbrev pub sample_env : Env
sample_env = record {
  pb = sample_pb;
  net = record {
    ip_string = λ ip. ip;
    parse_ip = λ s. none;
    split_host_port = λ s. none;
    join_host_port = λ h p. h;
  };
  resolve = λ s. true;
  dialer = record { dial_tcp = λ s. ok fresh_sock; dial_udp = λ s. some fresh_sock; bad_dest = [] };
  session_of = λ s. s;
}

abbrev pub sample_id : Str
sample_id = 7 ∷ []

abbrev pub sample_link : Link
sample_link = record { is_open = true; writable = 9 }

-- Established, and nothing has been sent yet.
abbrev pub sample_system : System
sample_system = record {
  pop = record {
    outlet = record { conn = some sample_link; outbox = [] };
    wait_pong = 0;
    proxys = (sample_id, tcp_proxy) ∷ [];
    tcp =
        (sample_id, record { conn = some fresh_sock; user_name = []; is_close_by_client = false })
        ∷ [];
    wait_list = [];
    used = [];
  };
  node = record {
    outlet = record { conn = some sample_link; outbox = [] };
    waitpone = 0;
    proxy_sessions = (sample_id, tt) ∷ [];
    tcp = (sample_id, record { conn = some fresh_sock; is_close_by_server = false }) ∷ [];
    proxy_udps = [];
    started = [];
    is_destroy = false;
    udp_timeout = 60;
  };
}
