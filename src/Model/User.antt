-- ===== src/Model/User.antt =====
-- ippop/model/user.go and userschedulerlist.go: the calls that read and write users. `now` is
-- time.Now().Unix().
pub mod Stored
pub mod Saved
use titan_ipoverlay.Prelude.{ℕ, Option, none, some, List, [], ◌∷◌, map}
use titan_ipoverlay.Prelude.Str.{Str}
use titan_ipoverlay.Prelude.Assoc.{Assoc}
use titan_ipoverlay.Prelude.Exec.{Result, ok, err, Exec, lift, pure, ◌>>=◌, ◌>>◌}
use titan_ipoverlay.Redis.{Redis, Cmd, Reply, fields, hset, zadd, zrem, del, hgetall}
use titan_ipoverlay.Model.{
  Error, redis_failed, bad_struct, UserInfo, user_to_map, map_to_user, redis_key_user,
  redis_key_user_zset, redis_key_user_route_scheduler,
}
use titan_ipoverlay.Model.Node.{send}

decoded_user : Option UserInfo → Result Error (Option UserInfo)
decoded_user none = err bad_struct
decoded_user (some u) = ok (some u)

unfoldable pub user_of : Assoc Str → Result Error (Option UserInfo)
unfolding decoded_user
user_of [] = ok none
user_of (f ∷ m) = decoded_user (map_to_user (f ∷ m))

user_of_replies : List Reply → Result Error (Option UserInfo)
user_of_replies (fields m ∷ []) = user_of m
user_of_replies _ = err redis_failed

-- The users that can be read; the others are only logged.
keep_user : Option UserInfo → List UserInfo → List UserInfo
keep_user none us = us
keep_user (some u) us = u ∷ us

users_of_replies : List Reply → List UserInfo
unfolding keep_user
users_of_replies [] = []
users_of_replies (fields m ∷ rs) = keep_user (map_to_user m) (users_of_replies rs)
users_of_replies (_ ∷ rs) = users_of_replies rs

module _ (r : Redis Error) where
  unfoldable pub save_user : UserInfo → Exec Error r.Db (Unit {0})
  save_user user = send r (hset (redis_key_user user.user_name) (user_to_map user) ∷ [])

  -- `none` is a user that does not exist.
  unfoldable pub get_user : Str → Exec Error r.Db (Option UserInfo)
  unfolding user_of_replies
  get_user name = do rs ← r.exec (hgetall (redis_key_user name) ∷ []); lift (user_of_replies rs)

  unfoldable pub delete_user : Str → Exec Error r.Db (Unit {0})
  delete_user name = do
    send r (del (redis_key_user name) ∷ [])
    send r (zrem redis_key_user_zset name ∷ [])

  unfoldable pub zadd_user : ℕ → Str → Exec Error r.Db (Unit {0})
  zadd_user now name = send r (zadd redis_key_user_zset now name ∷ [])

  unfoldable pub add_user_to_scheduler_list : ℕ → Str → Exec Error r.Db (Unit {0})
  add_user_to_scheduler_list now name = send r (zadd redis_key_user_route_scheduler now name ∷ [])

  unfoldable pub remove_user_from_scheduler_list : Str → Exec Error r.Db (Unit {0})
  remove_user_from_scheduler_list name = send r (zrem redis_key_user_route_scheduler name ∷ [])

  unfoldable pub list_user_with_names : List Str → Exec Error r.Db (List UserInfo)
  unfolding users_of_replies
  list_user_with_names names = do
    rs ← r.exec (map (λ name. hgetall (redis_key_user name)) names)
    pure (users_of_replies rs)
