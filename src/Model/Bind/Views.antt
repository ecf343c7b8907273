-- ===== src/Model/Bind/Views.antt =====
-- What the pipelines of node.go and bind.go do to the stored nodes and users, seen through the
-- few facts that the rest of the program goes by.
use titan_ipoverlay.Prelude.{ℕ, ◌≡◌, refl, Bool, true, false, Option, none, some, []}
use titan_ipoverlay.Prelude.Str.{Str, codes, str_eq, str_eq-append}
use titan_ipoverlay.Prelude.Assoc.{Assoc, lookup, insert, merge, last_value, lookup-merge}
use titan_ipoverlay.StructMap.{struct_to_map, show_value}
use titan_ipoverlay.Redis.{View}
use titan_ipoverlay.Model.{
  NodeInfo, UserInfo, node_to_map, user_to_map, redis_key_node, redis_key_user, redis_key_node_bind,
  redis_key_node_free, redis_key_node_online,
}

abbrev pub text_or_empty : Option Str → Str
text_or_empty none = []
text_or_empty (some s) = s

abbrev pub is_scored : Option ℕ → Bool
is_scored none = false
is_scored (some n) = true

-- The user that a node is bound to, and the node that a user is routed to; [] is none.
unfoldable pub bound_to : View → Str → Str
bound_to v id = text_or_empty (lookup (codes "bind_user") (v.hash (redis_key_node id)))

unfoldable pub route_of : View → Str → Str
route_of v name = text_or_empty (lookup (codes "route_node_id") (v.hash (redis_key_user name)))

unfoldable pub is_free : View → Str → Bool
is_free v id = is_scored (v.zset redis_key_node_free id)

unfoldable pub is_bound : View → Str → Bool
is_bound v id = is_scored (v.zset redis_key_node_bind id)

unfoldable pub is_online : View → Str → Bool
is_online v id = v.members redis_key_node_online id

pub stored_bind_user :
    (n : NodeInfo) (m : Assoc Str)
    → lookup (codes "bind_user") (merge (node_to_map n) m) ≡ some n.bind_user
unfolding node_to_map last_value insert str_eq struct_to_map show_value
stored_bind_user n m = rw (lookup-merge (codes "bind_user") (node_to_map n) m)

pub stored_route :
    (u : UserInfo) (m : Assoc Str)
    → lookup (codes "route_node_id") (merge (user_to_map u) m) ≡ some u.route_node_id
unfolding user_to_map last_value insert str_eq struct_to_map show_value
stored_route u m = rw (lookup-merge (codes "route_node_id") (user_to_map u) m)

pub node_key_eq : (a b : Str) → str_eq (redis_key_node a) (redis_key_node b) ≡ str_eq a b
unfolding redis_key_node
node_key_eq a b = str_eq-append (codes "titan:node:") a b

pub user_key_eq : (a b : Str) → str_eq (redis_key_user a) (redis_key_user b) ≡ str_eq a b
unfolding redis_key_user
user_key_eq a b = str_eq-append (codes "titan:user:") a b

pub user_node_key : (a b : Str) → str_eq (redis_key_user a) (redis_key_node b) ≡ false
unfolding redis_key_user redis_key_node str_eq
user_node_key a b = refl

pub node_user_key : (a b : Str) → str_eq (redis_key_node a) (redis_key_user b) ≡ false
unfolding redis_key_user redis_key_node str_eq
node_user_key a b = refl
