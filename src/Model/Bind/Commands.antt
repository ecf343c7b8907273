-- ===== src/Model/Bind/Commands.antt =====
-- The pipelines of bind.go.
use titan_ipoverlay.Prelude.{ℕ, List, [], ◌∷◌, ◌++◌, if◌then◌else◌}
use titan_ipoverlay.Prelude.Int.{pos}
use titan_ipoverlay.Redis.{Cmd, hset, zadd, zrem}
use titan_ipoverlay.Model.{
  NodeInfo, UserInfo, node_to_map, user_to_map, redis_key_node, redis_key_user, redis_key_user_zset,
  redis_key_node_bind, redis_key_node_free,
}

-- BindNodeWithNewUser: the node with its user, the user, and the node no longer free.
unfoldable pub bind_commands : ℕ → UserInfo → NodeInfo → List Cmd
bind_commands now user node =
    hset (redis_key_node node.id) (node_to_map (record node { bind_user = user.user_name }))
    ∷ hset (redis_key_user user.user_name) (user_to_map user)
    ∷ zadd redis_key_user_zset now user.user_name
    ∷ zadd redis_key_node_bind now node.id
    ∷ zrem redis_key_node_free node.id
    ∷ []

-- A node that loses its user is free again if it is online.
unfoldable pub unbind_commands : ℕ → NodeInfo → List Cmd
unbind_commands now node =
    hset (redis_key_node node.id) (node_to_map (record node { bind_user = [] }))
    ∷ zrem redis_key_node_bind node.id
    ∷ (if node.online then zadd redis_key_node_free now node.id ∷ [] else [])

-- The user as SwitchNodeByUser leaves it.
unfoldable pub switched_user : ℕ → UserInfo → NodeInfo → UserInfo
switched_user now user to_node = record user {
  route_node_id = to_node.id;
  last_route_switch_time = pos now;
}

unfoldable pub switch_commands : ℕ → UserInfo → NodeInfo → NodeInfo → List Cmd
unfolding unbind_commands switched_user
switch_commands now user from_node to_node =
    unbind_commands now from_node
    ++ hset (redis_key_node to_node.id)
        (node_to_map (record to_node { bind_user = user.user_name }))
      ∷ hset (redis_key_user user.user_name) (user_to_map (switched_user now user to_node))
      ∷ zadd redis_key_node_bind now to_node.id
      ∷ zrem redis_key_node_free to_node.id
      ∷ []
