-- ===== src/Socks5/Username/Options.antt =====
-- The loop of `paserUsername`: its fuel suffices, and what a successful parse guarantees.
use titan_ipoverlay.Prelude.{
  ℕ, zero, suc, ◌≤◌, ◌≡◌, refl, ap, ◌≢◌, ◌⊎◌, inl, inr, true, List, [], ◌∷◌, ◌++◌, length, arith,
  ◌==◌, Bool-cases,
}
use titan_ipoverlay.Prelude.Str.{Str}
use titan_ipoverlay.Prelude.Exec.{ok}
use titan_ipoverlay.Prelude.Decimal.{ParsedInt, valid, parse_int}
use titan_ipoverlay.Socks5.Username.{
  User, named, dash, cons_first, split, join, value_parts, after_value, set_time, set_option,
  read_options, valid_session, check_session, of_parts, parse_username,
}

length-after_value : (ps : List Str) → length (after_value ps) ≤ length ps
unfolding after_value
length-after_value [] = omega arith
length-after_value (p ∷ ps) = ground (arith, length-after_value ps)

-- One round per part is enough fuel: more of it changes nothing.
pub read_options-fuel :
    (f g : ℕ) (u : User) (ps : List Str)
    → length ps ≤ f
    → length ps ≤ g
    → read_options f u ps ≡ read_options g u ps
unfolding read_options
read_options-fuel zero zero u ps h k = refl
read_options-fuel zero (suc g) u [] h k = refl
read_options-fuel zero (suc g) u (p ∷ ps) h k = absurd (omega arith)
read_options-fuel (suc f) zero u [] h k = refl
read_options-fuel (suc f) zero u (p ∷ ps) h k = absurd (omega arith)
read_options-fuel (suc f) (suc g) u [] h k = refl
read_options-fuel (suc f) (suc g) u (key ∷ ps) h k = ground (
  arith,
  read_options-fuel f g u ps,
  read_options-fuel f g (set_option u key (join (value_parts ps))) (after_value ps),
  length-after_value ps,
)

username-set_time : (u : User) (n : ParsedInt) → (set_time u n).username ≡ u.username
unfolding set_time
username-set_time u (valid z) = refl
username-set_time u _ = refl

-- An option never renames the user.
username-set_option : (u : User) (k v : Str) → (set_option u k v).username ≡ u.username
unfolding set_option
username-set_option u k v = ground (arith, username-set_time u (parse_int v))

username-read_options :
    (f : ℕ) (u : User) (ps : List Str) → (read_options f u ps).username ≡ u.username
unfolding read_options
username-read_options zero u ps = refl
username-read_options (suc f) u [] = refl
username-read_options (suc f) u (key ∷ ps) =
    let u' = set_option u key (join (value_parts ps)) in
    ground (
      arith,
      username-read_options f u ps,
      username-read_options f u' (after_value ps),
      username-set_option u key (join (value_parts ps)),
    )

abbrev pub NoDash : Str → Type 0
NoDash [] = Unit {0}
NoDash (c ∷ cs) = (c ≢ dash) × NoDash cs

-- What stands behind the first part: nothing, or a dash and more.
abbrev pub Tail : Str → Type 0
Tail [] = Unit {0}
Tail (c ∷ cs) = c ≡ dash

-- The first part of a text is what stands before its first dash.
abbrev pub FirstPart : Str → Str → Type 0
FirstPart s p = (rest : Str) × (s ≡ p ++ rest) × NoDash p × Tail rest

abbrev HeadFirst : Str → List Str → Type 0
HeadFirst s [] = ⊥
HeadFirst s (p ∷ ps) = FirstPart s p

cons_first-HeadFirst :
    (c : ℕ) (s : Str) (ps : List Str)
    → c ≢ dash
    → HeadFirst s ps
    → HeadFirst (c ∷ s) (cons_first c ps)
unfolding cons_first
cons_first-HeadFirst c s [] ne h = absurd h
cons_first-HeadFirst c s (p ∷ ps) ne (rest, e, nd, tl) = (rest, ap (◌∷◌ c) e, (ne, nd), tl)

split-HeadFirst : (s : Str) → HeadFirst s (split s)
unfolding split
split-HeadFirst [] = ([], refl, tt, tt)
split-HeadFirst (c ∷ cs) = elim (Bool-cases (c == dash)) [
  | inl hit ↦ rw hit (c ∷ cs, refl, tt, ground arith)
  | inr miss ↦ rw miss (cons_first-HeadFirst c cs (split cs) (ground arith) (split-HeadFirst cs))
]

-- The session of a parsed name is empty, or one to nine letters and digits.
abbrev pub SessionOk : Str → Type 0
SessionOk s = (s ≡ []) ⊎ (valid_session s ≡ true)

check_session-ok :
    (u v : User) (s : Str) → u.session ≡ s → check_session u s ≡ ok v → (v ≡ u) × SessionOk s
unfolding check_session
check_session-ok u v [] e h = (ground arith, inl refl)
check_session-ok u v (c ∷ cs) e h = ground arith

of_parts-ok :
    (s : Str) (ps : List Str) (u : User)
    → HeadFirst s ps
    → of_parts ps ≡ ok u
    → FirstPart s u.username × SessionOk u.session
unfolding of_parts
of_parts-ok s [] u h k = absurd h
of_parts-ok s (name ∷ ps) u h k =
    let v = read_options (length ps) (named name) ps in
    let (e, fits) = check_session-ok v u v.session refl k in
    rw (e, username-read_options (length ps) (named name) ps) (h, fits)

-- A name that parses is the text before the first dash, and its session id is empty or made of
-- one to nine letters and digits.
pub parse_username-ok :
    (s : Str) (u : User) → parse_username s ≡ ok u → FirstPart s u.username × SessionOk u.session
unfolding parse_username
parse_username-ok s u h = of_parts-ok s (split s) u (split-HeadFirst s) h
