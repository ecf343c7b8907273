-- ===== src/Ws/SignIn.antt =====
-- ippop/ws/tunmgr.go: `getUserFromCache`, `DeleteUserFromCache` and `HandleUserAuth`. The cache is a
-- package of its own: an interface with what the code relies on.
pub mod Checks
use titan_ipoverlay.Prelude.{
  ℕ, ◌≡◌, Bool, true, false, ◌&&◌, ◌||◌, not, Option, none, some, [], ◌∷◌, if◌then◌else◌,
}
use titan_ipoverlay.Prelude.Str.{Str, str_eq}
use titan_ipoverlay.Prelude.Int.{ℤ, pos, ltb_ℤ, leb_ℤ}
use titan_ipoverlay.Prelude.Exec.{Result, ok, err, Exec, lift, pure, ◌>>=◌, ◌>>◌}
use titan_ipoverlay.Redis.{Redis}
use titan_ipoverlay.Model.{Error, user_not_exist, UserInfo}
use titan_ipoverlay.Model.User.{get_user}

-- gcache: a lookup fails only for a missing key and may move entries, and a Set may drop others.
pub record UserCache : Type 1 where
  pub Store : Type 0
  pub find : Str → Store → Option UserInfo
  pub touch : Str → Store → Store
  pub set : Str → UserInfo → Store → Store
  pub remove : Str → Store → Store
  pub find_set : (name : Str) (u : UserInfo) (s : Store) → find name (set name u s) ≡ some u
  pub find_remove : (name : Str) (s : Store) → find name (remove name s) ≡ none

-- Why a sign-in is refused.
pub data Refusal : Type 0 where
  no_user : Error → Refusal
  user_off wrong_password out_of_date out_of_traffic : Refusal

-- The checks of HandleUserAuth in their order; `md5_hex` is the text of md5.Sum.
unfoldable pub check_user : (Str → Str) → ℤ → Str → UserInfo → Result Refusal (Unit {0})
check_user md5_hex now password user =
    if user.off
    then err user_off
    else if not (str_eq user.password_md5 (md5_hex password))
    then err wrong_password
    else if ltb_ℤ now user.start_time || ltb_ℤ user.end_time now
    then err out_of_date
    else if not (leb_ℤ user.total_traffic (pos 0) && leb_ℤ (pos 0) user.total_traffic)
        && leb_ℤ user.total_traffic user.current_traffic
    then err out_of_traffic
    else ok tt

module _ (r : Redis Error) (cache : UserCache) where
  -- The users that are cached, and the stored data.
  abbrev pub World : Type 0
  World = cache.Store × r.Db

  unfoldable pub loaded :
      Str → Result Error (Option UserInfo) × r.Db → cache.Store → Result Error UserInfo × World
  loaded name (err e, db) s = (err e, (s, db))
  loaded name (ok none, db) s = (err (user_not_exist name), (s, db))
  loaded name (ok (some user), db) s = (ok user, (cache.set name user s, db))

  unfoldable pub from_cache : Str → Option UserInfo → World → Result Error UserInfo × World
  unfolding loaded
  from_cache name (some user) (s, db) = (ok user, (cache.touch name s, db))
  from_cache name none (s, db) = loaded name (get_user r name db) (cache.touch name s)

  unfoldable pub get_user_from_cache : Str → World → Result Error UserInfo × World
  unfolding from_cache
  get_user_from_cache name (s, db) = from_cache name (cache.find name s) (s, db)

  unfoldable pub delete_user_from_cache : Str → World → World
  delete_user_from_cache name (s, db) = (cache.remove name s, db)

  unfoldable pub checked :
      (Str → Str) → ℤ → Str → Result Error UserInfo × World → Result Refusal (Unit {0}) × World
  checked md5_hex now password (err e, w) = (err (no_user e), w)
  checked md5_hex now password (ok user, w) = (check_user md5_hex now password user, w)

  unfoldable pub handle_user_auth :
      (Str → Str) → ℤ → Str → Str → World → Result Refusal (Unit {0}) × World
  unfolding checked
  handle_user_auth md5_hex now name password w =
      checked md5_hex now password (get_user_from_cache name w)
