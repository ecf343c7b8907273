-- ===== src/Model/Traffic.antt =====
-- ippop/model/traffic5min.go, traffichour.go and trafficday.go: the traffic of users and of all
-- users, per five minutes, hour and day. The three files are one text with other constants. `now`
-- is time.Now().Unix().
pub mod Scores
pub mod Pipeline
pub mod Adds
pub mod Samples
pub mod Maps
mod Tests
use titan_ipoverlay.Prelude.{
  ℕ, ◌+◌, ◌-◌, ◌*◌, ◌/◌, ◌%◌, ◌^◌, ◌≤◌, ◌≡◌, Bool, true, false, ◌&&◌, ◌||◌, Option, none, some,
  List, [], ◌∷◌, ◌++◌, map, leb, if◌then◌else◌,
}
use mathlib.Core.List.{Mem}
use titan_ipoverlay.Prelude.Str.{Str, str_eq, codes}
use titan_ipoverlay.Prelude.Assoc.{Assoc}
use titan_ipoverlay.Prelude.Int.{ℤ, pos, negsuc, pos_part, ltb_ℤ}
use titan_ipoverlay.Prelude.Decimal.{show_nat, parse_int, atoi_value}
use titan_ipoverlay.Prelude.Exec.{Result, ok, err}

-- The scores of the members of the sorted sets, by key.
abbrev pub Scores : Type 0
Scores = Str → Str → Option ℕ

-- The commands on sorted sets that the program sends in one pipeline.
pub data SetCmd : Type 0 where
  zaddnx : Str → ℕ → Str → SetCmd
  zincrby : Str → ℕ → Str → SetCmd
  zremrangebyscore : Str → ℕ → ℕ → SetCmd

-- A Redis server, which the program only calls: a score is a float64, to which `round` rounds.
pub record Sets (E : Type 0) : Type 1 where
  pub Db : Type 0
  pub scores : Db → Scores
  pub round : ℕ → ℕ
  pub exec : List SetCmd → Db → Result E (Unit {0}) × Db
  pub range : Str → ℕ → ℕ → Db → Result E (List (Str × ℕ))
  pub last : Str → Db → Result E (List (Str × ℕ))

abbrev pub put : Scores → Str → Str → Option ℕ → Scores
put sc k m o j i = if str_eq k j && str_eq m i then o else sc j i

added : Option ℕ → ℕ → ℕ
added none n = n
added (some old) n = old + n

kept_or : Option ℕ → ℕ → ℕ
kept_or none n = n
kept_or (some old) n = old

without : ℕ → ℕ → Option ℕ → Option ℕ
without lo hi none = none
without lo hi (some score) = if leb lo score && leb score hi then none else some score

-- The documented effect of a command, and of a pipeline.
unfoldable pub apply : (ℕ → ℕ) → Scores → SetCmd → Scores
unfolding added kept_or without
apply round sc (zaddnx k score m) j i = put sc k m (some (kept_or (sc k m) (round score))) j i
apply round sc (zincrby k d m) j i = put sc k m (some (round (added (sc k m) d))) j i
apply round sc (zremrangebyscore k lo hi) j i =
    if str_eq k j then without lo hi (sc j i) else sc j i

unfoldable pub run : (ℕ → ℕ) → Scores → List SetCmd → Scores
unfolding apply
run round sc [] = sc
run round sc (c ∷ cs) = run round (apply round sc c) cs

-- What the calls are documented to do: a whole number of at most 2^53 is a float64, a pipeline
-- that succeeds has run its commands, and a range gives the members whose scores are in it.
pub record Documented {E : Type 0} (r : Sets E) : Type 0 where
  pub exact : (n : ℕ) → n ≤ 2 ^ 53 → r.round n ≡ n
  pub ran :
      (cs : List SetCmd) (db : r.Db)
      → (r.exec cs db).0 ≡ ok tt
      → r.scores (r.exec cs db).1 ≡ run r.round (r.scores db) cs
  pub found :
      (k : Str) (lo hi : ℕ) (db : r.Db) (ps : List (Str × ℕ)) (m : Str) (score : ℕ)
      → r.range k lo hi db ≡ ok ps
      → r.scores db k m ≡ some score
      → lo ≤ score
      → score ≤ hi
      → Mem (m, score) ps

-- The constants of one of the three files: the bits that hold the traffic, the length of a period
-- and how long it is kept in seconds, and the keys.
pub record Period : Type 0 where
  pub bits : ℕ
  pub seconds : ℕ
  pub keep : ℕ
  pub user_prefix : Str
  pub all_key : Str

abbrev pub five_minutes : Period
five_minutes = record {
  bits = 29;
  seconds = 300;
  keep = 24 * 3600;
  user_prefix = codes "titan:traffic5min:";
  all_key = codes "titan:traffic5minall";
}

abbrev pub one_hour : Period
one_hour = record {
  bits = 32;
  seconds = 3600;
  keep = 168 * 3600;
  user_prefix = codes "titan:traffichour:";
  all_key = codes "titan:traffichourmall";
}

-- It keeps its entries for keepSevenDays, the constant of traffichour.go.
abbrev pub one_day : Period
one_day = record {
  bits = 37;
  seconds = 86400;
  keep = 168 * 3600;
  user_prefix = codes "titan:trafficday:";
  all_key = codes "titan:trafficdayall";
}

pub data StatError : Type 0 where
  invalid_times sets_failed : StatError

module _ (p : Period) (now : ℕ) where
  -- floorTo5Min, floorToHour and floorToDay
  unfoldable pub floor_to : ℕ
  floor_to = now / p.seconds

  unfoldable pub score_base : ℕ
  unfolding floor_to
  score_base = floor_to * 2 ^ p.bits

  unfoldable pub min_score : ℕ
  min_score = ((now - p.keep) / p.seconds) * 2 ^ p.bits

  abbrev pub user_key : Str → Str
  user_key user = p.user_prefix ++ user

  unfoldable pub add_commands : Str → ℕ → List SetCmd
  unfolding score_base floor_to min_score
  add_commands key kb =
      zaddnx key score_base (show_nat floor_to)
      ∷ zincrby key kb (show_nat floor_to)
      ∷ zremrangebyscore key 0 min_score
      ∷ []

  -- Users without traffic are passed over.
  user_commands : Str → ℤ → List SetCmd
  unfolding add_commands
  user_commands user traffic =
      if ltb_ℤ (pos 0) traffic then add_commands (user_key user) (pos_part traffic / 1024) else []

  -- The loop over the users, and the sum that it leaves in `total`.
  unfoldable pub users_commands : Assoc ℤ → List SetCmd
  unfolding user_commands
  users_commands [] = []
  users_commands ((user, traffic) ∷ users) = user_commands user traffic ++ users_commands users

  unfoldable pub total_kb : Assoc ℤ → ℕ
  total_kb [] = 0
  total_kb ((user, traffic) ∷ users) = pos_part traffic / 1024 + total_kb users

  unfoldable pub traffic_commands : Assoc ℤ → List SetCmd
  unfolding users_commands total_kb add_commands
  traffic_commands users = users_commands users ++ add_commands p.all_key (total_kb users)

-- What a pair of a range stands for: the start of a period, and the kilobytes in it.
unfoldable pub decode : Period → Str × ℕ → ℤ × ℕ
decode p (m, score) = (times p.seconds (atoi_value (parse_int m)), score % 2 ^ p.bits)
  where
    times : ℕ → ℤ → ℤ
    times k (pos n) = pos (n * k)
    times k (negsuc n) = negsuc (n * k + (k - 1))

module _ (r : Sets StatError) (p : Period) where
  unfoldable pub add_users_traffic : ℕ → Assoc ℤ → r.Db → Result StatError (Unit {0}) × r.Db
  add_users_traffic now users = r.exec (traffic_commands p now users)

  decoded : Result StatError (List (Str × ℕ)) → Result StatError (List (ℤ × ℕ))
  decoded (err e) = err e
  decoded (ok ps) = ok (map (decode p) ps)

  -- What a list call assigns in its map, in the order of the range.
  unfoldable pub list_user_traffic : Str → ℤ → ℤ → r.Db → Result StatError (List (ℤ × ℕ))
  unfolding decoded
  list_user_traffic user start stop db =
      if ltb_ℤ start (pos 0) || ltb_ℤ stop (pos 0)
      then err invalid_times
      else decoded (
          r.range (p.user_prefix ++ user) ((pos_part start / p.seconds) * 2 ^ p.bits)
            ((pos_part stop / p.seconds + 1) * 2 ^ p.bits) db)

  -- Of the last `back` seconds.
  unfoldable pub list_all_traffic : ℕ → ℕ → r.Db → Result StatError (List (ℤ × ℕ))
  unfolding decoded
  list_all_traffic now back db = decoded (
      r.range p.all_key (((now - back) / p.seconds) * 2 ^ p.bits)
        ((now / p.seconds + 1) * 2 ^ p.bits) db)

last_entry : Period → List (Str × ℕ) → ℤ × ℕ
last_entry p [] = (pos 0, 0)
last_entry p (pair ∷ pairs) = decode p pair

last_decoded : Period → Result StatError (List (Str × ℕ)) → Result StatError (ℤ × ℕ)
unfolding last_entry
last_decoded p (err e) = err e
last_decoded p (ok ps) = ok (last_entry p ps)

module _ (r : Sets StatError) where
  abbrev pub add_users_traffic_5_minutes : ℕ → Assoc ℤ → r.Db → Result StatError (Unit {0}) × r.Db
  add_users_traffic_5_minutes = add_users_traffic r five_minutes

  abbrev pub add_users_traffic_one_hour : ℕ → Assoc ℤ → r.Db → Result StatError (Unit {0}) × r.Db
  add_users_traffic_one_hour = add_users_traffic r one_hour

  abbrev pub add_users_traffic_one_day : ℕ → Assoc ℤ → r.Db → Result StatError (Unit {0}) × r.Db
  add_users_traffic_one_day = add_users_traffic r one_day

  unfoldable pub get_user_last_traffic_per_5_min : Str → r.Db → Result StatError (ℤ × ℕ)
  unfolding last_decoded
  get_user_last_traffic_per_5_min user db =
      last_decoded five_minutes (r.last (five_minutes.user_prefix ++ user) db)
