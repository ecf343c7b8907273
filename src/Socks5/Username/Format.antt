-- ===== src/Socks5/Username/Format.antt =====
-- The name with its options as a client writes it, and that `parse_username` reads it back.
use titan_ipoverlay.Prelude.{
  ℕ, suc, ◌*◌, ◌≤◌, ◌≡◌, refl, ◌∙◌, true, false, List, [], ◌∷◌, ◌++◌, arith,
}
use titan_ipoverlay.Prelude.Str.{Str, codes, str_eq}
use titan_ipoverlay.Prelude.Int.{pos}
use titan_ipoverlay.Prelude.Decimal.{
  max_int64, valid, parse_int, parse_int-show, show_int, show_nat, AllDigits, show_nat-AllDigits,
  wrap64_in_range,
}
use titan_ipoverlay.Prelude.Exec.{ok}
use titan_ipoverlay.Socks5.Username.{
  User, named, dash, cons_first, split, join, is_key, value_parts, after_value, set_time,
  set_option, read_options, valid_session, check_session, of_parts, parse_username,
}
use titan_ipoverlay.Socks5.Username.Options.{NoDash}

split-last : (p : Str) → NoDash p → split p ≡ p ∷ []
unfolding split cons_first
split-last [] h = refl
split-last (c ∷ cs) h = ground (arith, split-last cs h.1, h.0)

split-dash : (p s : Str) → NoDash p → split (p ++ (dash ∷ s)) ≡ p ∷ split s
unfolding split cons_first
split-dash [] s h = refl
split-dash (c ∷ cs) s h = ground (arith, split-dash cs s h.1, h.0)

abbrev pub AllNoDash : List Str → Type 0
AllNoDash [] = Unit {0}
AllNoDash (p ∷ ps) = NoDash p × AllNoDash ps

split-join : (p : Str) (ps : List Str) → AllNoDash (p ∷ ps) → split (join (p ∷ ps)) ≡ p ∷ ps
unfolding join
split-join p [] h = split-last p h.0
split-join p (q ∷ qs) h = rw (split-dash p (join (q ∷ qs)) h.0, split-join q qs h.1)

AllDigits-NoDash : (s : Str) → AllDigits s → NoDash s
AllDigits-NoDash [] h = tt
AllDigits-NoDash (c ∷ s) h = (λ e. omega arith, AllDigits-NoDash s h.2)

abbrev pub option_parts : Str → Str → Str → ℕ → List Str
option_parts zone region session minutes =
    codes "zone"
    ∷ zone
    ∷ codes "region"
    ∷ region
    ∷ codes "session"
    ∷ session
    ∷ codes "sessTime"
    ∷ show_nat minutes
    ∷ []

-- The user name that a client sends to ask for these options.
abbrev pub format_username : Str → Str → Str → Str → ℕ → Str
format_username name zone region session minutes =
    join (name ∷ option_parts zone region session minutes)

-- A value that the format can carry.
abbrev pub IsPlain : Str → Type 0
IsPlain s = NoDash s × (is_key s ≡ false)

is_key-digits : (s : Str) → AllDigits s → is_key s ≡ false
unfolding is_key str_eq
is_key-digits [] h = refl
is_key-digits (c ∷ cs) h = ground (arith, h.1)

-- A round of the loop on a key with one part as its value, before another key or the end.
read_one :
    (f : ℕ) (u : User) (key v next : Str) (rest : List Str)
    → is_key key ≡ true
    → is_key v ≡ false
    → is_key next ≡ true
    → read_options (suc f) u (key ∷ v ∷ next ∷ rest)
      ≡ read_options f (set_option u key v) (next ∷ rest)
unfolding read_options value_parts after_value join
read_one f u key v next rest hk hv hn = rw (hk, hv, hn)

read_last :
    (f : ℕ) (u : User) (key v : Str)
    → is_key key ≡ true
    → is_key v ≡ false
    → read_options (suc (suc f)) u (key ∷ v ∷ []) ≡ set_option u key v
unfolding read_options value_parts after_value join
read_last f u key v hk hv = ground arith

text_of : (n : ℕ) → n ≤ max_int64 → parse_int (show_nat n) ≡ valid (pos n)
text_of n h = unfold show_int in parse_int-show (pos n) (h, omega arith)

set_time-minutes :
    (u : User) (n : ℕ)
    → n * 60000000000 ≤ max_int64
    → set_option u (codes "sessTime") (show_nat n) ≡ record u { sess_time = pos (n * 60000000000) }
unfolding set_option set_time str_eq
set_time-minutes u n h =
    let back : parse_int (show_nat n) ≡ valid (pos n) = text_of n (omega arith) in
    rw (back, wrap64_in_range (pos (n * 60000000000)) (omega arith))

read_options-format :
    (name zone region session : Str) (minutes : ℕ)
    → is_key zone ≡ false
    → is_key region ≡ false
    → is_key session ≡ false
    → minutes * 60000000000 ≤ max_int64
    → read_options 8 (named name) (option_parts zone region session minutes) ≡ record {
      username = name;
      zone = zone;
      region = region;
      session = session;
      sess_time = pos (minutes * 60000000000);
    }
unfolding is_key str_eq set_option
read_options-format name zone region session minutes hz hr hs fits =
    let u0 = named name in
    let u1 = record u0 { zone = zone } in
    let u2 = record u1 { region = region } in
    let u3 = record u2 { session = session } in
    read_one 7 u0 (codes "zone") zone (codes "region") _ refl hz refl
    ∙ read_one 6 u1 (codes "region") region (codes "session") _ refl hr refl
    ∙ read_one 5 u2 (codes "session") session (codes "sessTime") _ refl hs refl
    ∙ read_last 3 u3 (codes "sessTime") (show_nat minutes) refl
        (is_key-digits (show_nat minutes) (show_nat-AllDigits minutes))
    ∙ set_time-minutes u3 minutes fits

plain_parts :
    (name zone region session : Str) (minutes : ℕ)
    → NoDash name
    → NoDash zone
    → NoDash region
    → NoDash session
    → AllNoDash (name ∷ option_parts zone region session minutes)
plain_parts name zone region session minutes hn hz hr hs = (
  hn,
  (
    omega arith,
    (
      hz,
      (
        omega arith,
        (
          hr,
          (omega arith, (hs, (omega arith, (AllDigits-NoDash _ (show_nat-AllDigits minutes), tt)))),
        ),
      ),
    ),
  ),
)

check_session-valid :
    (u : User) (s : Str) → u.session ≡ s → valid_session s ≡ true → check_session u s ≡ ok u
unfolding check_session
check_session-valid u [] e h = refl
check_session-valid u (c ∷ cs) e h = rw h

-- A client that writes its options in this form gets just these options.
pub parse_username-format :
    (name zone region session : Str) (minutes : ℕ)
    → NoDash name
    → IsPlain zone
    → IsPlain region
    → IsPlain session
    → valid_session session ≡ true
    → minutes * 60000000000 ≤ max_int64
    → parse_username (format_username name zone region session minutes)
      ≡ ok (record {
        username = name;
        zone = zone;
        region = region;
        session = session;
        sess_time = pos (minutes * 60000000000);
      })
unfolding parse_username of_parts
parse_username-format name zone region session minutes hn hz hr hs allowed fits =
    rw
      (
        split-join name (option_parts zone region session minutes)
            (plain_parts name zone region session minutes hn hz.0 hr.0 hs.0),
        read_options-format name zone region session minutes hz.1 hr.1 hs.1 fits,
      )
      (check_session-valid _ session refl allowed)

-- A name without options is itself.
pub parse_username-plain : (name : Str) → NoDash name → parse_username name ≡ ok (named name)
unfolding parse_username of_parts read_options check_session
parse_username-plain name h = rw (split-last name h) refl
