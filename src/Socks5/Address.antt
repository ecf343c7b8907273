-- ===== src/Socks5/Address.antt =====
-- The request of ippop/socks5/protocol.go: `addrSpec`, `readAddrSpec`, `replySocks5Client` and
-- `newRequest`. A nil net.IP is the empty list of bytes.
pub mod Reply
use titan_ipoverlay.Prelude.{
  ℕ, ◌+◌, ◌*◌, ◌/◌, ◌%◌, Option, none, some, [], ◌∷◌, ◌++◌, length, ◌==◌, if◌then◌else◌,
}
use titan_ipoverlay.Prelude.Str.{Str}
use titan_ipoverlay.Prelude.Exec.{Result, ok, err, pure, raise, lift, ◌>>=◌}
use titan_ipoverlay.Socks5.Conn.{
  Error, Io, read_full, read_byte, write, socks5_version, ipv4_address, ipv6_address, fqdn_address,
  bad_addr_type, bad_version, bad_remote, format_failed,
}
use titan_ipoverlay.Socks5.Ip.{Net, to4, to16}
use titan_ipoverlay.Socks5.Username.{User, anonymous}

pub record AddrSpec : Type 0 where
  pub fqdn : Str
  pub ip : Str
  pub port : ℕ

pub record Request : Type 0 where
  pub command : ℕ
  pub dest_addr : AddrSpec
  pub src_ip : Str
  pub user : User

-- The type byte and the body of the address in a reply.
ip_body : Str → Option Str → Option Str → Result Error (ℕ × Str)
ip_body ip (some ip4) v6 = ok (ipv4_address, ip4)
ip_body ip none (some ip6) = ok (ipv6_address, ip6)
ip_body ip none none = err format_failed

addr_body : Str → Str → Result Error (ℕ × Str)
unfolding ip_body
addr_body [] ip = ip_body ip (to4 ip) (to16 ip)
addr_body (c ∷ cs) ip = ok (fqdn_address, (length (c ∷ cs) % 256) ∷ c ∷ cs)

message : ℕ → ℕ → Result Error (ℕ × Str) → Result Error Str
message resp port (err e) = err e
message resp port (ok (addr_type, body)) =
    ok (socks5_version ∷ resp ∷ 0 ∷ addr_type ∷ (body ++ (port / 256) ∷ (port % 256) ∷ []))

unfoldable pub reply_message : ℕ → Option AddrSpec → Result Error Str
unfolding message addr_body
reply_message resp none = message resp 0 (ok (ipv4_address, 0 ∷ 0 ∷ 0 ∷ 0 ∷ []))
reply_message resp (some addr) = message resp (addr.port % 65536) (addr_body addr.fqdn addr.ip)

unfoldable pub reply_socks5_client : ℕ → Option AddrSpec → Io (Unit {0})
unfolding reply_message
reply_socks5_client resp addr = do msg ← lift (reply_message resp addr); write msg

big_endian : Str → ℕ
big_endian (hi ∷ lo ∷ rest) = hi * 256 + lo
big_endian _ = 0

module _ (net : Net) where
  open net use {ip_string, split_host_port}

  read_ip_host : ℕ → Io (Str × Str)
  read_ip_host n = do addr ← read_full n; pure (ip_string addr, addr)

  read_host : ℕ → Io (Str × Str)
  unfolding read_ip_host
  read_host addr_type =
      if addr_type == ipv4_address
      then read_ip_host 4
      else if addr_type == ipv6_address
      then read_ip_host 16
      else if addr_type == fqdn_address
      then (do addr_len ← read_byte; fqdn ← read_full addr_len; pure (fqdn, []))
      else raise (bad_addr_type addr_type)

  unfoldable pub read_addr_spec : Io AddrSpec
  unfolding read_host big_endian
  read_addr_spec = do
    addr_type ← read_byte
    host ← read_host addr_type
    port ← read_full 2
    pure (record { fqdn = host.0; ip = host.1; port = big_endian port })

  src_of : Option (Str × Str) → Result Error Str
  src_of none = err bad_remote
  src_of (some (host, port)) = ok host

  check_version : Str → Io ℕ
  check_version (version ∷ command ∷ rest) =
      if version == socks5_version then pure command else raise bad_version
  check_version _ = raise bad_version

  -- `remote_addr` is what conn.RemoteAddr() prints.
  unfoldable pub new_request : Str → Io Request
  unfolding read_addr_spec src_of check_version
  new_request remote_addr = do
    header ← read_full 3
    command ← check_version header
    dest ← read_addr_spec
    src_ip ← lift (src_of (split_host_port remote_addr))
    pure (record { command = command; dest_addr = dest; src_ip = src_ip; user = anonymous })
