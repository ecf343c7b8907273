-- ===== src/Socks5/Conn.antt =====
-- The constants of ippop/socks5/protocol.go, the errors of the handshake, and the client's side of
-- the connection: the bytes that will arrive before the end of the stream, the bytes that were
-- written to it, and how many more writes succeed.
use titan_ipoverlay.Prelude.{
  ℕ, zero, suc, ◌≡◌, [], ◌∷◌, ◌++◌, arith, length, take, drop, ltb, if◌then◌else◌, take-append,
  drop-append, length-append,
}
use titan_ipoverlay.Prelude.Str.{Str}
use titan_ipoverlay.Prelude.Exec.{Result, ok, err}

abbrev pub socks5_version : ℕ
socks5_version = 5

abbrev pub connect_command : ℕ
connect_command = 1

abbrev pub bind_command : ℕ
bind_command = 2

abbrev pub associate_command : ℕ
associate_command = 3

abbrev pub ipv4_address : ℕ
ipv4_address = 1

abbrev pub fqdn_address : ℕ
fqdn_address = 3

abbrev pub ipv6_address : ℕ
ipv6_address = 4

abbrev pub no_auth : ℕ
no_auth = 0

abbrev pub user_pass_auth : ℕ
user_pass_auth = 2

abbrev pub user_auth_version : ℕ
user_auth_version = 1

abbrev pub user_auth_success : ℕ
user_auth_success = 0

abbrev pub user_auth_failure : ℕ
user_auth_failure = 1

abbrev pub no_acceptable : ℕ
no_acceptable = 255

abbrev pub success_reply : ℕ
success_reply = 0

abbrev pub command_not_supported : ℕ
command_not_supported = 7

pub data Error : Type 0 where
  eof write_failed bad_request bad_address bad_version bad_auth_version : Error
  no_auth_method auth_failed bad_session bad_remote : Error
  bad_addr_type bad_command : ℕ → Error
  forbidden_ip bind_unsupported no_udp_port bad_server_ip format_failed : Error
  handler_failed : Error

pub record Conn : Type 0 where
  pub input : Str
  pub written : Str
  pub writable : ℕ

abbrev pub Io {ℓ} : Type ℓ → Type ℓ
Io A = Conn → Result Error A × Conn

-- io.ReadAtLeast(r, buf, n) with a buffer of n bytes: all n bytes or an error.
unfoldable pub read_full : ℕ → Io Str
read_full n c =
    if ltb (length c.input) n
    then (err eof, record c { input = [] })
    else (ok (take n c.input), record c { input = drop n c.input })

-- r.Read(buf) with a buffer of one byte.
pub first_byte : Str → Conn → Result Error ℕ × Conn
first_byte [] c = (err eof, c)
first_byte (b ∷ rest) c = (ok b, record c { input = rest })

unfoldable pub read_byte : Io ℕ
unfolding first_byte
read_byte c = first_byte c.input c

-- conn.Write(b)
pub pending : ℕ → Str → Conn → Result Error (Unit {0}) × Conn
pending zero b c = (err write_failed, c)
pending (suc n) b c = (ok tt, record c { written = c.written ++ b; writable = n })

unfoldable pub write : Str → Io (Unit {0})
unfolding pending
write b c = pending c.writable b c

-- A connection whose input starts with the bytes that are asked for hands over just these.
pub read_full_prefix :
    (b rest w : Str) (k : ℕ)
    → read_full (length b) (record { input = b ++ rest; written = w; writable = k })
      ≡ (ok b, record { input = rest; written = w; writable = k })
unfolding read_full
read_full_prefix b rest w k =
    rw (take-append b rest, drop-append b rest) (ground (arith, length-append b rest))
