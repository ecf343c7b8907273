-- ===== src/Socks5/Datagram/Build.antt =====
-- What `new_datagram` sends back to the client, and how the client reads it.
use titan_ipoverlay.Prelude.{
  ℕ, suc, ◌<◌, ◌%◌, ◌≡◌, refl, inl, inr, Option, none, some, [], ◌∷◌, length, arith, length-drop,
  Option-cases,
}
use titan_ipoverlay.Prelude.Str.{Str}
use titan_ipoverlay.Prelude.Exec.{ok}
use titan_ipoverlay.Prelude.Decimal.{parse_int, atoi_value, uint16, show_nat}
use titan_ipoverlay.Socks5.Conn.{ipv4_address, ipv6_address, fqdn_address}
use titan_ipoverlay.Socks5.Ip.{Net, to4, to16}
use titan_ipoverlay.Socks5.Datagram.{
  Datagram, bytes, new_datagram_from_bytes, new_datagram, to_address, host_address, as_ip,
  put_uint16, get_uint16,
}
use titan_ipoverlay.Socks5.Datagram.Parse.{AddressFits, v4, v6, name, parsed_of_bytes}

-- The port number that the text p stands for, as two bytes hold it.
abbrev pub port_number : Str → ℕ
port_number p = uint16 (atoi_value (parse_int p))

get_uint16-put_uint16 : (n : ℕ) → get_uint16 (put_uint16 n) ≡ n
unfolding get_uint16
get_uint16-put_uint16 n = omega arith

to4-length : (ip ip4 : Str) → length ip ≡ 16 → to4 ip ≡ some ip4 → length ip4 ≡ 4
unfolding to4
to4-length ip ip4 h e = ground (arith, length-drop 12 ip)

to16-some : (ip : Str) → length ip ≡ 16 → to16 ip ≡ some ip
unfolding to16
to16-some ip h = ground arith

-- The datagram that `new_datagram` builds from an address and its port.
abbrev built : ℕ → Str → ℕ → Str → Datagram
built atyp addr port payload = record {
  rsv = 0 ∷ 0 ∷ [];
  frag = 0;
  atyp = atyp;
  dst_addr = addr;
  dst_port = put_uint16 port;
  payload = payload;
}

abbrev pub shortest : Str → Option Str → Str
shortest ip none = ip
shortest ip (some ip4) = ip4

module _ (net : Net) (addr h p payload : Str) (splits : net.split_host_port addr ≡ some (h, p))
    (nonempty : 0 < length payload) where
  -- A reply from a domain name carries the length of the name twice: it is well formed, and the
  -- client that parses it reads a name that begins with that length byte.
  pub new_datagram-domain :
      net.parse_ip h ≡ none
      → 0 < length h
      → length h < 255
      → (d : Datagram) × (new_datagram net addr payload ≡ ok d)
        × (new_datagram_from_bytes (bytes d) ≡ ok d)
        × (to_address net d.atyp d.dst_addr d.dst_port
            ≡ net.join_host_port (length h ∷ h) (show_nat (port_number p)))
  unfolding new_datagram host_address as_ip to_address
  new_datagram-domain unknown some_name short =
      let wraps : length h % 256 ≡ length h = omega arith in
      let grows : suc (length h) % 256 ≡ suc (length h) = omega arith in
      let d = built fqdn_address (suc (length h) ∷ length h ∷ h) (port_number p) payload in
      (
        d,
        rw (splits, unknown, wraps, grows),
        parsed_of_bytes d (record {
          reserved = refl;
          address = name fqdn_address (suc (length h)) (length h ∷ h) refl (omega arith) refl;
          port = refl;
          nonempty = nonempty;
        }),
        rw (get_uint16-put_uint16 (port_number p)) (ground arith),
      )

  built-round :
      (atyp : ℕ) (dst : Str)
      → AddressFits atyp dst
      → let d = built atyp dst (port_number p) payload in new_datagram_from_bytes (bytes d) ≡ ok d
  built-round atyp dst fits =
      parsed_of_bytes _
        (record { reserved = refl; address = fits; port = refl; nonempty = nonempty })

  -- A reply from an IP address is read back by the client as that address in its shortest form,
  -- with the port and the payload unchanged.
  pub new_datagram-ip :
      (ip : Str)
      → net.parse_ip h ≡ some ip
      → length ip ≡ 16
      → (d : Datagram) × (new_datagram net addr payload ≡ ok d)
        × (new_datagram_from_bytes (bytes d) ≡ ok d)
        × (d.payload ≡ payload)
        × (to_address net d.atyp d.dst_addr d.dst_port
            ≡ net.join_host_port (net.ip_string (shortest ip (to4 ip))) (show_nat (port_number p)))
  unfolding new_datagram host_address as_ip to_address
  new_datagram-ip ip known full = elim (Option-cases (to4 ip)) [
    | inl other ↦ (
      built ipv6_address ip (port_number p) payload,
      rw (splits, known, other, to16-some ip full),
      built-round ipv6_address ip (v6 ipv6_address ip refl full),
      refl,
      rw (other, get_uint16-put_uint16 (port_number p)),
    )
    | inr (ip4, mapped) ↦ (
      built ipv4_address ip4 (port_number p) payload,
      rw (splits, known, mapped),
      built-round ipv4_address ip4 (v4 ipv4_address ip4 refl (to4-length ip ip4 full mapped)),
      refl,
      rw (mapped, get_uint16-put_uint16 (port_number p)),
    )
  ]
