-- ===== src/Ws/Samples.antt =====
-- A user and a cache that the tests share.
use titan_ipoverlay.Prelude.{◌≡◌, refl, Option, none, some, if◌then◌else◌}
use titan_ipoverlay.Prelude.Str.{Str, codes, str_eq, str_eq_refl}
use titan_ipoverlay.Prelude.Int.{pos}
use titan_ipoverlay.Model.{UserInfo, new_user}
use titan_ipoverlay.Ws.SignIn.{UserCache}

abbrev pub test_user : UserInfo
test_user = record new_user {
  user_name = codes "alice";
  password_md5 = codes "secret";
  end_time = pos 2000000000;
}

-- A cache that keeps the user that was set last.
pub kept : Str → Option (Str × UserInfo) → Option UserInfo
kept name none = none
kept name (some (key, u)) = if str_eq key name then some u else none

pub kept-set : (name : Str) (u : UserInfo) → kept name (some (name, u)) ≡ some u
unfolding kept
kept-set name u = rw (str_eq_refl name) refl

pub kept-none : (name : Str) → kept name none ≡ none
unfolding kept
kept-none name = refl

abbrev pub test_cache : UserCache
test_cache = record {
  Store = Option (Str × UserInfo);
  find = λ name s. kept name s;
  touch = λ name s. s;
  set = λ name u s. some (name, u);
  remove = λ name s. none;
  find_set = λ name u s. kept-set name u;
  find_remove = λ name s. kept-none name;
}
