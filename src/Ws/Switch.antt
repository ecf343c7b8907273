-- ===== src/Ws/Switch.antt =====
-- ippop/ws/tunmgr.go: `switchNodeForUser`, `SwitchNode` and the scheduler's `switchUserRoute`.
-- `unix` is time.Now().Unix().
pub mod Effect
use titan_ipoverlay.Prelude.{ℕ, Option, none, some}
use titan_ipoverlay.Prelude.Str.{Str}
use titan_ipoverlay.Prelude.Exec.{Result, ok, err}
use titan_ipoverlay.Redis.{Redis}
use titan_ipoverlay.Model.{Error, user_not_exist, UserInfo}
use titan_ipoverlay.Model.Bind.{allocate_free_node, add_free_node, switch_node_by_user}
use titan_ipoverlay.Model.User.{get_user}
use titan_ipoverlay.Ws.SignIn.{UserCache, World, delete_user_from_cache}

module _ (r : Redis Error) (cache : UserCache) (unix : ℕ) where
  abbrev pub Outcome : Type 0
  Outcome = Result Error (Unit {0}) × World r cache

  -- After an error the node that was allocated is made free again; an error of that is only logged.
  unfoldable pub after_switch :
      UserInfo → Str → cache.Store → Result Error (Unit {0}) × r.Db → Outcome
  after_switch user id s (err e, db) = (err e, (s, (add_free_node r unix id db).1))
  after_switch user id s (ok t, db) = (ok tt, delete_user_from_cache r cache user.user_name (s, db))

  on_node : UserInfo → cache.Store → Result Error Str × r.Db → Outcome
  unfolding after_switch
  on_node user s (err e, db) = (err e, (s, db))
  on_node user s (ok id, db) = after_switch user id s (switch_node_by_user r unix user id db)

  unfoldable pub switch_node_for_user : UserInfo → World r cache → Outcome
  unfolding on_node
  switch_node_for_user user (s, db) = on_node user s (allocate_free_node r db)

  for_found : Str → cache.Store → Result Error (Option UserInfo) × r.Db → Outcome
  for_found name s (err e, db) = (err e, (s, db))
  for_found name s (ok none, db) = (err (user_not_exist name), (s, db))
  for_found name s (ok (some user), db) = switch_node_for_user user (s, db)

  unfoldable pub switch_node : Str → World r cache → Outcome
  unfolding for_found
  switch_node name (s, db) = for_found name s (get_user r name db)
