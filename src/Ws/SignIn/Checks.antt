-- ===== src/Ws/SignIn/Checks.antt =====
-- Who is let in, and on which user the decision is taken.
use titan_ipoverlay.Prelude.{
  ◌≡◌, ◌↔◌, ◌⊎◌, refl, ap, ◌∙◌, Bool, true, false, ◌&&◌, ◌||◌, not, Option, none, some, arith,
  if◌then◌else◌,
}
use titan_ipoverlay.Prelude.Str.{Str, str_eq, str_eq_iff}
use titan_ipoverlay.Prelude.Int.{ℤ, pos, negsuc, ◌≤ℤ◌, ◌<ℤ◌, ltb_ℤ, leb_ℤ}
use titan_ipoverlay.Prelude.Exec.{Result, ok, err}
use titan_ipoverlay.Redis.{Redis}
use titan_ipoverlay.Model.{Error, user_not_exist, UserInfo, redis_key_user}
use titan_ipoverlay.Model.User.{get_user, user_of}
use titan_ipoverlay.Model.User.Saved.{get_user-view}
use titan_ipoverlay.Model.Bind.Outcomes.{Reliable}
use titan_ipoverlay.Ws.SignIn.{
  UserCache, Refusal, no_user, user_off, wrong_password, out_of_date, out_of_traffic, World,
  check_user, loaded, from_cache, get_user_from_cache, delete_user_from_cache, checked,
  handle_user_auth,
}

-- A user who may sign in: on, with this password, in its time, and with traffic left.
abbrev pub MaySignIn : (Str → Str) → ℤ → Str → UserInfo → Type 0
MaySignIn md5_hex now password user =
    (user.off ≡ false)
    × (user.password_md5 ≡ md5_hex password)
    × (user.start_time ≤ℤ now)
    × (now ≤ℤ user.end_time)
    × ((user.total_traffic ≡ pos 0) ⊎ (user.current_traffic <ℤ user.total_traffic))

abbrev limit : (total current : ℤ) → Bool
limit total current = not (leb_ℤ total (pos 0) && leb_ℤ (pos 0) total) && leb_ℤ total current

limit_iff :
    (total current : ℤ) → (limit total current ≡ false) ↔ ((total ≡ pos 0) ⊎ (current <ℤ total))
limit_iff (pos n) (pos m) = ground arith
limit_iff (pos n) (negsuc m) = ground arith
limit_iff (negsuc n) (pos m) = ground arith
limit_iff (negsuc n) (negsuc m) = ground arith

chain_iff :
    (a b c d : Bool)
    → (◌≡◌ {A = Result Refusal (Unit {0})}
        (if a
          then err user_off
          else if not b
          then err wrong_password
          else if c
          then err out_of_date
          else if d
          then err out_of_traffic
          else ok tt)
        (ok tt))
      ↔ ((a ≡ false) × (b ≡ true) × (c ≡ false) × (d ≡ false))
chain_iff a b c d = ground arith

in_time_iff :
    (now start_time end_time : ℤ)
    → ((ltb_ℤ now start_time || ltb_ℤ end_time now) ≡ false)
      ↔ ((start_time ≤ℤ now) × (now ≤ℤ end_time))
in_time_iff now start_time end_time = ground arith

-- HandleUserAuth lets a user in exactly if the user is on, the password is the user's, the time is
-- between the start and the end, and the traffic is not limited or not used up.
pub check_user-MaySignIn :
    (md5_hex : Str → Str) (now : ℤ) (password : Str) (user : UserInfo)
    → (check_user md5_hex now password user ≡ ok tt) ↔ MaySignIn md5_hex now password user
unfolding check_user
check_user-MaySignIn md5_hex now password user =
    let chain =
      chain_iff user.off (str_eq user.password_md5 (md5_hex password))
        (ltb_ℤ now user.start_time || ltb_ℤ user.end_time now)
        (limit user.total_traffic user.current_traffic) in
    let time = in_time_iff now user.start_time user.end_time in
    let same = str_eq_iff user.password_md5 (md5_hex password) in
    let left = limit_iff user.total_traffic user.current_traffic in
    (
      (λ h. let (a, b, c, d) = chain.0 h in (a, same.0 b, (time.0 c).0, (time.0 c).1, left.0 d)),
      (λ h. let (a, b, c, d, e) = h in chain.1 (a, same.1 b, time.1 (c, d), left.1 e)),
    )

-- What a sign-in comes to for the user that is stored.
abbrev pub sign_in_outcome :
    (Str → Str) → ℤ → Str → Str → Result Error (Option UserInfo) → Result Refusal (Unit {0})
sign_in_outcome md5_hex now name password (err e) = err (no_user e)
sign_in_outcome md5_hex now name password (ok none) = err (no_user (user_not_exist name))
sign_in_outcome md5_hex now name password (ok (some user)) = check_user md5_hex now password user

module _ (r : Redis Error) (answers : Reliable r) (cache : UserCache) where
  loaded_outcome :
      (md5_hex : Str → Str) (now : ℤ) (name password : Str)
      (x : Result Error (Option UserInfo) × r.Db) (s : cache.Store)
      → (checked r cache md5_hex now password (loaded r cache name x s)).0
        ≡ sign_in_outcome md5_hex now name password x.0
  unfolding checked loaded
  loaded_outcome md5_hex now name password (err e, db) s = refl
  loaded_outcome md5_hex now name password (ok none, db) s = refl
  loaded_outcome md5_hex now name password (ok (some user), db) s = refl

  -- When Redis answers, a sign-in after DeleteUserFromCache is decided on the user as it is stored
  -- at that time.
  pub handle_user_auth-delete_user_from_cache :
      (md5_hex : Str → Str) (now : ℤ) (name password : Str) (w : World r cache)
      → (handle_user_auth r cache md5_hex now name password
          (delete_user_from_cache r cache name w)).0
        ≡ sign_in_outcome md5_hex now name password
            (user_of ((r.view w.1).hash (redis_key_user name)))
  unfolding handle_user_auth get_user_from_cache from_cache delete_user_from_cache
  handle_user_auth-delete_user_from_cache md5_hex now name password (s, db) =
      rw (cache.find_remove name s) (
        loaded_outcome md5_hex now name password (get_user r name db)
          (cache.touch name (cache.remove name s))
        ∙ ap (sign_in_outcome md5_hex now name password) (get_user-view r answers name db))
