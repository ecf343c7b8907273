-- ===== src/Model/Bind.antt =====
-- ippop/model/bind.go: the free nodes, and binding nodes to users. `now` is time.Now().Unix().
pub mod Commands
pub mod Views
pub mod Effects
pub mod Runs
pub mod FreeList
pub mod Reach
pub mod Outcomes
use titan_ipoverlay.Prelude.{
  ℕ, Bool, true, false, ◌&&◌, Option, none, some, List, [], ◌∷◌, ◌++◌, if◌then◌else◌,
}
use titan_ipoverlay.Prelude.Str.{Str}
use titan_ipoverlay.Prelude.Int.{pos}
use titan_ipoverlay.Prelude.Exec.{Result, ok, err, Exec, lift, pure, raise, ◌>>=◌, ◌>>◌}
use titan_ipoverlay.Redis.{Redis, Cmd, hset, zadd, zrem}
use titan_ipoverlay.Model.{
  Error, no_free_node, node_not_exist, already_bound, NodeInfo, UserInfo, node_to_map, user_to_map,
  redis_key_node, redis_key_user, redis_key_user_zset, redis_key_node_bind, redis_key_node_free,
}
use titan_ipoverlay.Model.Node.{send, get_node}
use Commands.{bind_commands, unbind_commands, switch_commands}

module _ (r : Redis Error) where
  unfoldable pub remove_free_node : Str → Exec Error r.Db (Unit {0})
  remove_free_node id = send r (zrem redis_key_node_free id ∷ [])

  unfoldable pub add_free_node : ℕ → Str → Exec Error r.Db (Unit {0})
  add_free_node now id = send r (zadd redis_key_node_free now id ∷ [])

  unfoldable pub found_free : Option Str → Result Error Str
  found_free none = err no_free_node
  found_free (some id) = ok id

  -- The free node of the lowest score, which is no longer free.
  unfoldable pub allocate_free_node : Exec Error r.Db Str
  unfolding found_free
  allocate_free_node = do popped ← r.zpopmin redis_key_node_free; lift (found_free popped)

  unfoldable pub existing : Str → Option NodeInfo → Result Error NodeInfo
  existing id none = err (node_not_exist id)
  existing id (some n) = ok n

  unfoldable pub unbound : Str → NodeInfo → Str → Result Error NodeInfo
  unbound id n [] = ok n
  unbound id n (c ∷ cs) = err (already_bound id (c ∷ cs))

  -- The deferred call of BindNodeWithNewUser: after an error a node that is online is made free.
  free_on_error : ℕ → NodeInfo → Result Error (Unit {0}) × r.Db → Result Error (Unit {0}) × r.Db
  free_on_error now node (ok t, db) = (ok t, db)
  free_on_error now node (err e, db) =
      if node.online then (err e, (add_free_node now node.id db).1) else (err e, db)

  bind_found : ℕ → UserInfo → NodeInfo → Exec Error r.Db (Unit {0})
  unfolding free_on_error unbound
  bind_found now user node db = free_on_error now node (
      (do free ← lift (unbound node.id node node.bind_user); send r (bind_commands now user free))
        db)

  unfoldable pub bind_node_with_new_user : ℕ → Str → UserInfo → Exec Error r.Db (Unit {0})
  unfolding bind_found existing
  bind_node_with_new_user now id user = do
    found ← get_node r id
    node ← lift (existing id found)
    bind_found now user node

  unfoldable pub unbind_node : ℕ → Str → Exec Error r.Db (Unit {0})
  unfolding existing
  unbind_node now id = do
    found ← get_node r id
    node ← lift (existing id found)
    send r (unbind_commands now node)

  unfoldable pub switch_node_by_user : ℕ → UserInfo → Str → Exec Error r.Db (Unit {0})
  unfolding existing unbound
  switch_node_by_user now user to_node_id = do
    from_found ← get_node r user.route_node_id
    from_node ← lift (existing user.route_node_id from_found)
    to_found ← get_node r to_node_id
    to_any ← lift (existing to_node_id to_found)
    to_node ← lift (unbound to_node_id to_any to_any.bind_user)
    send r (switch_commands now user from_node to_node)
