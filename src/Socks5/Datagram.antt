-- ===== src/Socks5/Datagram.antt =====
-- The UDP datagrams of ippop/socks5/protocol.go: `datagram`, `Bytes`, `newDatagramFromBytes`,
-- `NewDatagram`, `parseAddress` and `toAddress`.
pub mod Parse
pub mod Build
use titan_ipoverlay.Prelude.{
  ℕ, ◌+◌, ◌-◌, ◌*◌, ◌/◌, ◌%◌, ◌≡◌, Bool, ◌&&◌, Option, none, some, List, [], ◌∷◌, ◌++◌, length,
  take, drop, ltb, leb, ◌==◌, ◌||◌, if◌then◌else◌,
}
use titan_ipoverlay.Prelude.Str.{Str}
use titan_ipoverlay.Prelude.Exec.{Result, ok, err}
use titan_ipoverlay.Prelude.Decimal.{parse_int, atoi_value, uint16, show_nat}
use titan_ipoverlay.Socks5.Conn.{
  Error, bad_request, bad_address, ipv4_address, ipv6_address, fqdn_address,
}
use titan_ipoverlay.Socks5.Ip.{Net, to4, to16}

pub record Datagram : Type 0 where
  pub rsv : Str
  pub frag : ℕ
  pub atyp : ℕ
  pub dst_addr : Str
  pub dst_port : Str
  pub payload : Str

pub bytes : Datagram → Str
bytes d = d.rsv ++ (d.frag ∷ d.atyp ∷ (d.dst_addr ++ (d.dst_port ++ d.payload)))

head_byte : Str → ℕ
head_byte [] = 0
head_byte (x ∷ xs) = x

-- b[i], at an index that the caller has checked.
byte_at : ℕ → Str → ℕ
unfolding head_byte
byte_at i b = head_byte (drop i b)

-- b[lo:hi]
abbrev pub slice : Str → ℕ → ℕ → Str
slice b lo hi = take (hi - lo) (drop lo b)

-- The bytes from the fifth on up to `minl`, if they are there.
read_ip : Str → ℕ → Result Error (Str × ℕ)
read_ip bb minl = if ltb (length bb) minl then err bad_request else ok (slice bb 4 minl, minl)

read_name : Str → Result Error (Str × ℕ)
unfolding byte_at
read_name bb =
    let l = byte_at 4 bb in
    if ltb (length bb) 5
    then err bad_request
    else if l == 0
    then err bad_request
    else if ltb (length bb) (5 + l)
    then err bad_request
    else ok (l ∷ slice bb 5 (5 + l), 5 + l)

-- The address of a datagram in the form that it is stored in, and where it ends.
read_address : Str → Result Error (Str × ℕ)
unfolding byte_at
read_address bb =
    if ltb (length bb) 4
    then err bad_request
    else if byte_at 3 bb == ipv4_address
    then read_ip bb 8
    else if byte_at 3 bb == ipv6_address
    then read_ip bb 20
    else if byte_at 3 bb == fqdn_address
    then read_name bb
    else err bad_request

with_address : Str → Result Error (Str × ℕ) → Result Error Datagram
with_address bb (err e) = err e
with_address bb (ok (addr, stop)) =
    let minl = stop + 2 in
    if leb (length bb) minl
    then err bad_request
    else ok (record {
      rsv = slice bb 0 2;
      frag = byte_at 2 bb;
      atyp = byte_at 3 bb;
      dst_addr = addr;
      dst_port = slice bb (minl - 2) minl;
      payload = drop minl bb;
    })

-- newDatagramFromBytes
unfoldable pub new_datagram_from_bytes : Str → Result Error Datagram
unfolding read_address read_ip read_name with_address
new_datagram_from_bytes bb = with_address bb (read_address bb)

-- binary.BigEndian.PutUint16 and Uint16, on two bytes.
abbrev pub put_uint16 : ℕ → Str
put_uint16 p = (p / 256) ∷ (p % 256) ∷ []

unfoldable pub get_uint16 : Str → ℕ
get_uint16 (hi ∷ lo ∷ rest) = hi * 256 + lo
get_uint16 _ = 0

-- The type byte and the address of a host: `ip` is what net.ParseIP gives for the text `h`.
as_ip : Str → Option Str → Option Str → ℕ × Str
as_ip h (some ip4) v6 = (ipv4_address, ip4)
as_ip h none (some ip6) = (ipv6_address, ip6)
as_ip h none none = (fqdn_address, (length h % 256) ∷ h)

host_address : Str → Option Str → ℕ × Str
unfolding as_ip
host_address h none = as_ip h none none
host_address h (some ip) = as_ip h (to4 ip) (to16 ip)

module _ (net : Net) where
  open net use {ip_string, parse_ip, split_host_port, join_host_port}

  with_host : Option (Str × Str) → Result Error (ℕ × Str × Str)
  unfolding host_address
  with_host none = err bad_address
  with_host (some (h, p)) =
      let (atyp, addr) = host_address h (parse_ip h) in
      ok (atyp, addr, put_uint16 (uint16 (atoi_value (parse_int p))))

  unfoldable pub parse_address : Str → Result Error (ℕ × Str × Str)
  unfolding with_host
  parse_address address = with_host (split_host_port address)

  prefixed : Str → Result Error (ℕ × Str × Str) → Result Error Datagram
  prefixed payload (err e) = err e
  prefixed payload (ok (atyp, addr, port)) = ok (record {
    rsv = 0 ∷ 0 ∷ [];
    frag = 0;
    atyp = atyp;
    dst_addr = if atyp == fqdn_address then (length addr % 256) ∷ addr else addr;
    dst_port = port;
    payload = payload;
  })

  unfoldable pub new_datagram : Str → Str → Result Error Datagram
  unfolding prefixed parse_address
  new_datagram addr payload = prefixed payload (parse_address addr)

  fqdn_text : Str → Str → Str
  fqdn_text [] port = []
  fqdn_text (l ∷ host) port =
      if ltb (length (l ∷ host)) (l + 1) then [] else join_host_port host port

  unfoldable pub to_address : ℕ → Str → Str → Str
  unfolding fqdn_text get_uint16
  to_address atyp addr port =
      let p = show_nat (get_uint16 port) in
      if (atyp == ipv4_address) || (atyp == ipv6_address)
      then join_host_port (ip_string addr) p
      else if atyp == fqdn_address
      then fqdn_text addr p
      else join_host_port [] p
