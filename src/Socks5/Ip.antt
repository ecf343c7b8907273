-- ===== src/Socks5/Ip.antt =====
-- What ippop/socks5 uses of Go's package net. The byte forms of addresses and the tests on them
-- are modelled; the textual forms are taken as an interface with the documented behaviour.
use titan_ipoverlay.Prelude.{
  Bool, false, ◌&&◌, ◌||◌, Option, none, some, [], ◌∷◌, ◌++◌, length, drop, take, ◌==◌, leb,
  if◌then◌else◌,
}
use titan_ipoverlay.Prelude.Str.{Str, str_eq}

-- `ip_string` is net.IP.String, `parse_ip` is net.ParseIP (16 bytes, or nil), and the last two are
-- net.SplitHostPort and net.JoinHostPort.
pub record Net : Type 0 where
  pub ip_string : Str → Str
  pub parse_ip : Str → Option Str
  pub split_host_port : Str → Option (Str × Str)
  pub join_host_port : Str → Str → Str

-- The prefix of an IPv4 address in its 16-byte form.
abbrev pub v4_in_v6_prefix : Str
v4_in_v6_prefix = 0 ∷ 0 ∷ 0 ∷ 0 ∷ 0 ∷ 0 ∷ 0 ∷ 0 ∷ 0 ∷ 0 ∷ 255 ∷ 255 ∷ []

-- ip.To4()
unfoldable pub to4 : Str → Option Str
to4 ip =
    if length ip == 4
    then some ip
    else if (length ip == 16) && str_eq (take 12 ip) v4_in_v6_prefix
    then some (drop 12 ip)
    else none

-- ip.To16()
unfoldable pub to16 : Str → Option Str
to16 ip =
    if length ip == 4
    then some (v4_in_v6_prefix ++ ip)
    else if length ip == 16
    then some ip
    else none

-- ip.IsLoopback() || ip.IsPrivate() || ip.IsMulticast() || ip.IsLinkLocalMulticast(), on the four
-- bytes of an IPv4 address, and on the bytes of another address.
unfoldable pub forbidden_v4 : Str → Bool
forbidden_v4 (a ∷ b ∷ c ∷ rest) =
    (a == 127)
    || ((a == 10) || ((a == 172) && (leb 16 b && leb b 31)) || ((a == 192) && (b == 168)))
    || (leb 224 a && leb a 239)
    || ((a == 224) && (b == 0) && (c == 0))
forbidden_v4 _ = false

abbrev pub v6_loopback : Str
v6_loopback = 0 ∷ 0 ∷ 0 ∷ 0 ∷ 0 ∷ 0 ∷ 0 ∷ 0 ∷ 0 ∷ 0 ∷ 0 ∷ 0 ∷ 0 ∷ 0 ∷ 0 ∷ 1 ∷ []

unfoldable pub forbidden_v6 : Str → Bool
forbidden_v6 (a ∷ b ∷ rest) =
    str_eq (a ∷ b ∷ rest) v6_loopback
    || ((length rest == 14) && (leb 252 a && leb a 253))
    || ((length rest == 14) && (a == 255))
forbidden_v6 _ = false

forbidden_form : Str → Option Str → Bool
unfolding forbidden_v4 forbidden_v6
forbidden_form ip (some v4) = forbidden_v4 v4
forbidden_form ip none = forbidden_v6 ip

unfoldable pub forbidden_ip : Str → Bool
unfolding forbidden_form to4
forbidden_ip ip = forbidden_form ip (to4 ip)
