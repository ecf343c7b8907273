-- ===== src/Model/Node.antt =====
-- ippop/model/node.go and blacklist.go: the calls that read and write nodes. `now` is
-- time.Now().Unix(), and `parse_time` is time.Parse(TimeLayout, _).Unix().
use titan_ipoverlay.Prelude.{
  ℕ, Bool, true, false, ◌&&◌, not, Option, none, some, List, [], ◌∷◌, if◌then◌else◌,
}
use titan_ipoverlay.Prelude.Str.{Str}
use titan_ipoverlay.Prelude.Assoc.{Assoc}
use titan_ipoverlay.Prelude.Exec.{Result, ok, err, Exec, lift, pure, raise, ◌>>=◌, ◌>>◌}
use titan_ipoverlay.Redis.{
  Redis, Cmd, hset, zadd, sadd, srem, del, hgetall, sismember, Reply, fields, is_member,
}
use titan_ipoverlay.Model.{
  Error, redis_failed, bad_struct, bad_time, NodeInfo, node_to_map, map_to_node, redis_key_node,
  redis_key_node_zset, redis_key_node_online, redis_key_node_free, redis_key_node_blacklist,
}

-- The node as GetNode fills it in: the id is the caller's, the two marks are those of the sets.
unfoldable pub decoded : Str → Bool → Bool → Option NodeInfo → Result Error (Option NodeInfo)
decoded id online black none = err bad_struct
decoded id online black (some n) =
    ok (some (record n { id = id; online = online; is_blacklisted = black }))

unfoldable pub node_of : Str → Assoc Str → Bool → Bool → Result Error (Option NodeInfo)
unfolding decoded
node_of id [] online black = ok none
node_of id (f ∷ m) online black = decoded id online black (map_to_node (f ∷ m))

unfoldable pub node_of_replies : Str → List Reply → Result Error (Option NodeInfo)
node_of_replies id (fields m ∷ is_member online ∷ is_member black ∷ []) = node_of id m online black
node_of_replies id _ = err redis_failed

module _ (r : Redis Error) where
  -- A pipeline whose replies are not looked at.
  abbrev pub send : List Cmd → Exec Error r.Db (Unit {0})
  send cs = do r.exec cs; pure tt

  unfoldable pub get_node : Str → Exec Error r.Db (Option NodeInfo)
  get_node id = do
    rs ← r.exec (
        hgetall (redis_key_node id)
        ∷ sismember redis_key_node_online id
        ∷ sismember redis_key_node_blacklist id
        ∷ [])
    lift (node_of_replies id rs)

  unfoldable pub set_node_offline : Str → Exec Error r.Db (Unit {0})
  set_node_offline id = send (srem redis_key_node_online id ∷ [])

  unfoldable pub delete_node_online_data : Exec Error r.Db (Unit {0})
  delete_node_online_data = send (del redis_key_node_online ∷ del redis_key_node_free ∷ [])

  unfoldable pub add_blacklist : Str → Exec Error r.Db (Unit {0})
  add_blacklist id = send (sadd redis_key_node_blacklist id ∷ [])

  unfoldable pub remove_blacklist : Str → Exec Error r.Db (Unit {0})
  remove_blacklist id = send (srem redis_key_node_blacklist id ∷ [])

abbrev pub is_empty : Str → Bool
is_empty [] = true
is_empty (c ∷ cs) = false

-- The pipeline of HandleNodeOnline for a node that was registered at `registered`.
unfoldable pub online_commands : ℕ → ℕ → NodeInfo → List Cmd
online_commands now registered node =
    hset (redis_key_node node.id) (node_to_map node)
    ∷ zadd redis_key_node_zset registered node.id
    ∷ sadd redis_key_node_online node.id
    ∷ (if is_empty node.bind_user && not node.is_blacklisted
        then zadd redis_key_node_free now node.id ∷ []
        else [])

module _ (r : Redis Error) (now : ℕ) (parse_time : Str → Option ℕ) where
  unfoldable pub go_online : NodeInfo → Option ℕ → Exec Error r.Db (Unit {0})
  unfolding online_commands
  go_online node none = raise bad_time
  go_online node (some registered) = send r (online_commands now registered node)

  unfoldable pub handle_node_online : NodeInfo → Exec Error r.Db (Unit {0})
  unfolding go_online
  handle_node_online node = go_online node (parse_time node.register_at)
