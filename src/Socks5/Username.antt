-- ===== src/Socks5/Username.antt =====
-- `User`, `paserUsername` and `validateSession` of ippop/socks5/protocol.go: the options of a
-- client ride behind its name, as in `alice-zone-static-region-us-session-1312a838o-sessTime-5`.
pub mod Options
pub mod Format
use titan_ipoverlay.Prelude.{
  ℕ, zero, suc, ◌+◌, ◌*◌, ◌≡◌, refl, Bool, true, false, ◌&&◌, ◌||◌, List, [], ◌∷◌, ◌++◌, length,
  leb, ltb, ◌==◌, if◌then◌else◌,
}
use titan_ipoverlay.Prelude.Str.{Str, codes, str_eq}
use titan_ipoverlay.Prelude.Int.{ℤ, pos, negsuc}
use titan_ipoverlay.Prelude.Decimal.{ParsedInt, valid, parse_int, wrap64}
use titan_ipoverlay.Prelude.Exec.{Result, ok, err}
use titan_ipoverlay.Socks5.Conn.{Error, bad_session}

-- `sess_time` is a duration in nanoseconds.
pub record User : Type 0 where
  pub username : Str
  pub zone : Str
  pub region : Str
  pub session : Str
  pub sess_time : ℤ

abbrev pub named : Str → User
named name = record { username = name; zone = []; region = []; session = []; sess_time = pos 0 }

abbrev pub anonymous : User
anonymous = named (codes "anonymous")

abbrev pub dash : ℕ
dash = b'-'

-- strings.Split(s, "-"): `first` is the part that is being read.
cons_first : ℕ → List Str → List Str
cons_first c [] = (c ∷ []) ∷ []
cons_first c (p ∷ ps) = (c ∷ p) ∷ ps

unfoldable pub split : Str → List Str
unfolding cons_first
split [] = [] ∷ []
split (c ∷ cs) = let rest = split cs in if c == dash then [] ∷ rest else cons_first c rest

-- strings.Join(parts, "-")
unfoldable pub join : List Str → Str
join [] = []
join (p ∷ []) = p
join (p ∷ q ∷ ps) = p ++ (dash ∷ join (q ∷ ps))

unfoldable pub is_key : Str → Bool
is_key k =
    str_eq k (codes "zone")
    || str_eq k (codes "region")
    || str_eq k (codes "session")
    || str_eq k (codes "sessTime")

-- parts[i+1:j], the parts up to the next key, and parts[j:].
unfoldable pub value_parts : List Str → List Str
value_parts [] = []
value_parts (p ∷ ps) = if is_key p then [] else p ∷ value_parts ps

unfoldable pub after_value : List Str → List Str
after_value [] = []
after_value (p ∷ ps) = if is_key p then p ∷ ps else after_value ps

set_time : User → ParsedInt → User
set_time u (valid z) = record u { sess_time = wrap64 (minutes z) }
  where
    minutes : ℤ → ℤ
    minutes (pos n) = pos (n * 60000000000)
    minutes (negsuc n) = negsuc (n * 60000000000 + 59999999999)
set_time u _ = u

unfoldable pub set_option : User → Str → Str → User
unfolding set_time
set_option u key value =
    if str_eq key (codes "zone")
    then record u { zone = value }
    else if str_eq key (codes "region")
    then record u { region = value }
    else if str_eq key (codes "session")
    then record u { session = value }
    else if str_eq key (codes "sessTime")
    then set_time u (parse_int value)
    else u

-- The loop over the parts behind the name; its fuel is the number of parts.
unfoldable pub read_options : ℕ → User → List Str → User
read_options zero u ps = u
read_options (suc f) u [] = u
read_options (suc f) u (key ∷ ps) =
    let skip = read_options f u ps in
    let set = read_options f (set_option u key (join (value_parts ps))) (after_value ps) in
    if is_key key then set else skip

is_alnum : ℕ → Bool
is_alnum c = (leb 48 c && leb c 57) || (leb 65 c && leb c 90) || (leb 97 c && leb c 122)

all_alnum : Str → Bool
unfolding is_alnum
all_alnum [] = true
all_alnum (c ∷ cs) = is_alnum c && all_alnum cs

-- ^[0-9A-Za-z]{1,9}$
unfoldable pub valid_session : Str → Bool
unfolding all_alnum
valid_session s = leb 1 (length s) && leb (length s) 9 && all_alnum s

check_session : User → Str → Result Error User
check_session u [] = ok u
check_session u (c ∷ cs) = if valid_session (c ∷ cs) then ok u else err bad_session

of_parts : List Str → Result Error User
unfolding check_session read_options
of_parts [] = err bad_session
of_parts (name ∷ ps) = let u = read_options (length ps) (named name) ps in check_session u u.session

-- paserUsername
unfoldable pub parse_username : Str → Result Error User
unfolding of_parts
parse_username s = of_parts (split s)

-- The example in the source.
parse_username_sample :
    parse_username (codes "ceshi1_11-zone-static-region-us-session-1312a838o-sessTime-5")
    ≡ ok (record {
      username = codes "ceshi1_11";
      zone = codes "static";
      region = codes "us";
      session = codes "1312a838o";
      sess_time = pos 300000000000;
    })
unfolding parse_username split is_key value_parts after_value set_option join valid_session
    parse_int str_eq wrap64
parse_username_sample = refl
