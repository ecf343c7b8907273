-- ===== src/Socks5/Server.antt =====
-- ippop/socks5/socks5.go: `serveSocks5Conn` and the handlers of the commands. A handler ends in a
-- call that is the work of another part: it is returned as an `Action`.
pub mod Guard
use titan_ipoverlay.Prelude.{
  ℕ, Bool, Option, none, some, [], length, take, drop, ltb, ◌==◌, if◌then◌else◌,
}
use titan_ipoverlay.Prelude.Str.{Str}
use titan_ipoverlay.Prelude.Int.{ℤ}
use titan_ipoverlay.Prelude.Exec.{Result, ok, err, pure, raise, lift, ◌>>=◌, ◌>>◌}
use titan_ipoverlay.Socks5.Conn.{
  Error, Conn, Io, read_byte, socks5_version, connect_command, bind_command, associate_command,
  success_reply, command_not_supported, bad_version, bad_command, forbidden_ip, bind_unsupported,
  bad_server_ip,
}
use titan_ipoverlay.Socks5.Ip
use titan_ipoverlay.Socks5.Ip.{Net}
use titan_ipoverlay.Socks5.Username.{User}
use titan_ipoverlay.Socks5.Address.{AddrSpec, Request, new_request, reply_socks5_client}
use titan_ipoverlay.Socks5.Auth.{authenticate}

-- SocksTargetInfo
pub record TargetInfo : Type 0 where
  pub domain_name : Str
  pub port : ℕ
  pub extra_bytes : Str
  pub username : Str
  pub session : Str
  pub sess_time : ℤ

-- HandleSocks5TCP with its target, or the UDP association of a user at a source address.
pub data Action : Type 0 where
  handle_tcp : TargetInfo → Action
  associate : Str → Str → Action

-- What the server knows of a connection: EnableAuth, the number of bytes that are buffered when a
-- request has been read, conn.RemoteAddr(), and the IP and port of conn.LocalAddr().
pub record Env : Type 0 where
  pub enable_auth : Bool
  pub buffered : ℕ
  pub remote_addr : Str
  pub local_ip : Str
  pub local_port : ℕ

-- bufreader.Read of what is buffered.
drain : ℕ → Io Str
drain n c = (ok (take n c.input), record c { input = drop n c.input })

refuse : Option Str → Io (Unit {0})
refuse none = pure tt
refuse (some ip) = if Ip.forbidden_ip ip then raise forbidden_ip else pure tt

module _ (net : Net) (env : Env) where
  abbrev pub target_of : Request → Str → TargetInfo
  target_of req extra_bytes = record {
    domain_name = req.dest_addr.fqdn;
    port = req.dest_addr.port;
    extra_bytes = extra_bytes;
    username = req.user.username;
    session = req.user.session;
    sess_time = req.user.sess_time;
  }

  connect_reply : Request → Str → Io Action
  connect_reply req extra_bytes = do
    reply_socks5_client success_reply
        (some (record { fqdn = []; ip = env.local_ip; port = env.local_port }))
    pure (handle_tcp (target_of req extra_bytes))

  handle_socks5_connect : Request → Io Action
  unfolding refuse drain connect_reply
  handle_socks5_connect req = do
    refuse (net.parse_ip req.dest_addr.fqdn)
    extra_bytes ← drain env.buffered
    connect_reply req extra_bytes

  handle_socks5_bind : Request → Io Action
  handle_socks5_bind req = do reply_socks5_client command_not_supported none; raise bind_unsupported

  unsupported : Request → Io Action
  unsupported req = do
    reply_socks5_client command_not_supported none
    raise (bad_command req.command)

  handle_socks5_request : Request → Io Action
  unfolding handle_socks5_connect handle_socks5_bind unsupported
  handle_socks5_request req =
      if req.command == connect_command
      then handle_socks5_connect req
      else if req.command == bind_command
      then handle_socks5_bind req
      else if req.command == associate_command
      then pure (associate req.user.username req.src_ip)
      else unsupported req

  with_user : Option User → Request → Request
  with_user none req = req
  with_user (some user) req = record req { user = user }

  check_socks_version : ℕ → Io (Unit {0})
  check_socks_version version = if version == socks5_version then pure tt else raise bad_version

  serve_request : Option User → Io Action
  unfolding with_user handle_socks5_request
  serve_request user = do
    req ← new_request net env.remote_addr
    handle_socks5_request (with_user user req)

  unfoldable pub serve_socks5_conn : (Str → Str → Result Error (Unit {0})) → Io Action
  unfolding check_socks_version serve_request
  serve_socks5_conn handle_user_auth = do
    version ← read_byte
    check_socks_version version
    user ← authenticate handle_user_auth env.enable_auth
    serve_request user
