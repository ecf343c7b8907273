-- ===== src/Socks5/Samples.antt =====
-- A resolver, a datagram and a user name that the tests share.
use titan_ipoverlay.Prelude.{
  ℕ, ◌≡◌, refl, Option, none, some, [], ◌∷◌, ◌++◌, arith, ◌==◌, if◌then◌else◌,
}
use titan_ipoverlay.Prelude.Str.{Str, codes, str_eq}
use titan_ipoverlay.Prelude.Int.{pos}
use titan_ipoverlay.Prelude.Exec.{ok}
use titan_ipoverlay.Prelude.Decimal.{parse_int, wrap64}
use titan_ipoverlay.Socks5.Ip.{Net, v4_in_v6_prefix}
use titan_ipoverlay.Socks5.Datagram.{Datagram}
use titan_ipoverlay.Socks5.Datagram.Parse.{v4, IsWellFormed}
use titan_ipoverlay.Socks5.Username.{
  User, parse_username, split, join, is_key, value_parts, after_value, set_option, valid_session,
}

unfoldable pub split_colon : Str → Option (Str × Str)
split_colon [] = none
split_colon (c ∷ cs) = if c == b':' then some ([], cs) else before c (split_colon cs)
  where
    before : ℕ → Option (Str × Str) → Option (Str × Str)
    before c none = none
    before c (some (h, p)) = some (c ∷ h, p)

-- A resolver that knows the texts of two addresses.
abbrev pub test_net : Net
test_net = record {
  ip_string = λ ip. if str_eq ip (8 ∷ 8 ∷ 8 ∷ 8 ∷ []) then codes "8.8.8.8" else codes "?";
  parse_ip = λ h.
      if str_eq h (codes "8.8.8.8") then some (v4_in_v6_prefix ++ 8 ∷ 8 ∷ 8 ∷ 8 ∷ []) else none;
  split_host_port = λ s. split_colon s;
  join_host_port = λ h p. h ++ b':' ∷ p;
}

abbrev pub test_datagram : Datagram
test_datagram = record {
  rsv = 0 ∷ 0 ∷ [];
  frag = 0;
  atyp = 1;
  dst_addr = 8 ∷ 8 ∷ 8 ∷ 8 ∷ [];
  dst_port = 0 ∷ 53 ∷ [];
  payload = 42 ∷ [];
}

pub test_datagram-IsWellFormed : IsWellFormed test_datagram
test_datagram-IsWellFormed = record {
  reserved = refl;
  address = v4 1 _ refl refl;
  port = refl;
  nonempty = omega arith;
}

abbrev pub sample_name : Str
sample_name = codes "alice-zone-static-region-us-session-1312a838o-sessTime-5"

abbrev pub sample_user : User
sample_user = record {
  username = codes "alice";
  zone = codes "static";
  region = codes "us";
  session = codes "1312a838o";
  sess_time = pos 300000000000;
}

-- The example in the source, with another name.
pub sample_parses : parse_username sample_name ≡ ok sample_user
unfolding parse_username split is_key value_parts after_value set_option join valid_session
    parse_int str_eq wrap64
sample_parses = refl
