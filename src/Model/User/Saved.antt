-- ===== src/Model/User/Saved.antt =====
-- What GetUser and ListUserWithNames give after SaveUser.
use titan_ipoverlay.Prelude.{◌≡◌, ◌≢◌, refl, sym, ap, ◌∙◌, none, some, [], ◌∷◌}
use titan_ipoverlay.Prelude.Str.{Str, codes, str_eq, str_eq_refl}
use titan_ipoverlay.Prelude.Assoc.{Assoc, lookup, insert, merge, last_value, lookup-merge}
use titan_ipoverlay.Prelude.Exec.{ok}
use titan_ipoverlay.Redis.{Redis, View, hset, hgetall, del, zrem, run, replies, reply, apply}
use titan_ipoverlay.StructMap.{struct_to_map, map_to_struct, show_value, has_tag}
use titan_ipoverlay.Model.{
  Error, UserInfo, user_to_map, map_to_user, user_struct, redis_key_user, redis_key_user_zset,
}
use titan_ipoverlay.Model.User.{save_user, get_user, delete_user, user_of, user_of_replies}
use titan_ipoverlay.Model.Bind.Outcomes.{Reliable, send_answers}
use titan_ipoverlay.Model.Bind.Runs.{send-ok}
use titan_ipoverlay.Model.Bind.Views.{stored_route}
use titan_ipoverlay.Model.User.Stored.{InRange, map_to_user-user_to_map}

map_to_user-merge :
    (u : UserInfo) (m : Assoc Str)
    → map_to_user (merge (user_to_map u) m) ≡ map_to_user (user_to_map u)
unfolding map_to_user user_to_map user_struct map_to_struct struct_to_map last_value str_eq has_tag
    show_value insert lookup
map_to_user-merge u m = simp (lookup-merge)

pub user_of-merge :
    (u : UserInfo) (m : Assoc Str) → InRange u → user_of (merge (user_to_map u) m) ≡ ok (some u)
unfolding user_of lookup
user_of-merge u m h =
    go (merge (user_to_map u) m) (some_hash u m)
      (map_to_user-merge u m ∙ map_to_user-user_to_map u h)
  where
    go : (x : Assoc Str) → x ≢ [] → map_to_user x ≡ some u → user_of x ≡ ok (some u)
    go [] ne e = absurd (ne refl)
    go (f ∷ x) ne e = rw e refl

    nothing : {s : Str} → lookup (codes "route_node_id") [] ≡ some s → ⊥
    nothing e = cc

    some_hash : (u : UserInfo) (m : Assoc Str) → merge (user_to_map u) m ≢ []
    some_hash u m e =
        let e' = sym (ap (lookup (codes "route_node_id")) e) ∙ stored_route u m in nothing e'

hash_hset :
    (v : View) (k : Str) (m : Assoc Str) → (run v (hset k m ∷ [])).hash k ≡ merge m (v.hash k)
unfolding run apply
hash_hset v k m = rw (str_eq_refl k) refl

gone :
    (v : View) (name : Str)
    → let w = run (run v (del (redis_key_user name) ∷ [])) (zrem redis_key_user_zset name ∷ []) in
      (user_of (w.hash (redis_key_user name)) ≡ ok none) × (w.zset redis_key_user_zset name ≡ none)
unfolding run apply user_of
gone v name =
    rw (str_eq_refl (redis_key_user name), str_eq_refl redis_key_user_zset, str_eq_refl name)
      (refl, refl)

module _ (r : Redis Error) (answers : Reliable r) where
  pub get_user-view :
      (name : Str) (db : r.Db)
      → (get_user r name db).0 ≡ user_of ((r.view db).hash (redis_key_user name))
  unfolding get_user replies reply apply user_of_replies
  get_user-view name db = rw (answers (hgetall (redis_key_user name) ∷ []) db) refl

  save_user-view :
      (u : UserInfo) (db : r.Db)
      → (r.view (save_user r u db).1).hash (redis_key_user u.user_name)
        ≡ merge (user_to_map u) ((r.view db).hash (redis_key_user u.user_name))
  unfolding save_user
  save_user-view u db =
      let cs = hset (redis_key_user u.user_name) (user_to_map u) ∷ [] in
      ap (λ v. v.hash (redis_key_user u.user_name)) (send-ok r cs db (send_answers r answers cs db))
      ∙ hash_hset (r.view db) (redis_key_user u.user_name) (user_to_map u)

  -- When Redis answers, a user whose numbers fit in 64 bits is read back by GetUser as SaveUser has
  -- stored it, whatever was stored for the user before.
  pub get_user-save_user :
      (u : UserInfo) (db : r.Db)
      → InRange u
      → (get_user r u.user_name (save_user r u db).1).0 ≡ ok (some u)
  get_user-save_user u db h =
      get_user-view u.user_name (save_user r u db).1
      ∙ ap user_of (save_user-view u db)
      ∙ user_of-merge u ((r.view db).hash (redis_key_user u.user_name)) h

  delete_user-view :
      (name : Str) (db : r.Db)
      → r.view (delete_user r name db).1
        ≡ run
            (run (r.view db) (del (redis_key_user name) ∷ []))
            (zrem redis_key_user_zset name ∷ [])
  unfolding delete_user
  delete_user-view name db =
      let a = del (redis_key_user name) ∷ [] in
      let b = zrem redis_key_user_zset name ∷ [] in
      let db' = (r.exec a db).1 in
      rw (answers a db) (
        send-ok r b db' (send_answers r answers b db')
        ∙ ap (λ v. run v b) (r.exec_effect a db (answers a db)))

  -- When Redis answers, a deleted user does not exist for GetUser, and is no longer listed.
  pub get_user-delete_user :
      (name : Str) (db : r.Db)
      → let after = (delete_user r name db).1 in
        ((get_user r name after).0 ≡ ok none)
        × ((r.view after).zset redis_key_user_zset name ≡ none)
  get_user-delete_user name db =
      let v = delete_user-view name db in
      let (a, b) = gone (r.view db) name in
      (
        get_user-view name (delete_user r name db).1
            ∙ ap (λ w. user_of (w.hash (redis_key_user name))) v
            ∙ a,
        ap (λ w. w.zset redis_key_user_zset name) v ∙ b,
      )
