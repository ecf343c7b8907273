-- ===== src/Model/Bind/FreeList.antt =====
-- The free nodes are those that are online and have no user (reidskey.go), after every call of
-- node.go and bind.go that succeeds.
use titan_ipoverlay.Prelude.{ℕ, ◌≡◌, sym, ap, ◌∙◌, true, some, [], arith}
use titan_ipoverlay.Prelude.Str.{Str, str_eq_iff}
use titan_ipoverlay.Prelude.Exec.{ok}
use titan_ipoverlay.Redis.{View, run}
use titan_ipoverlay.Model.{NodeInfo, UserInfo, redis_key_node, redis_key_node_blacklist}
use titan_ipoverlay.Model.Node.{online_commands}
use titan_ipoverlay.Model.Bind.Commands.{bind_commands, unbind_commands, switch_commands}
use titan_ipoverlay.Model.Bind.Views.{bound_to, is_free, is_online}
use titan_ipoverlay.Model.Bind.Effects.{
  bound_to-unbind, is_free-unbind, is_online-unbind, bound_to-bind, is_free-bind, is_online-bind,
  bound_to-switch, is_free-switch, is_online-switch, bound_to-online, is_free-online,
  is_online-online,
}
use titan_ipoverlay.Model.Bind.Runs.{stored_node, node_of-some}

-- "free = unbind + online".
unfoldable pub FreeInv : View → Type 0
FreeInv v = (j : Str) → is_free v j ≡ true → (is_online v j ≡ true) × (bound_to v j ≡ [])

pub stored_online :
    (v : View) (id : Str) {n : NodeInfo}
    → stored_node v id ≡ ok (some n)
    → n.online ≡ is_online v n.id
stored_online v id {n = n} h =
    let (a, b) =
      node_of-some id (v.hash (redis_key_node id)) (is_online v id)
        (v.members redis_key_node_blacklist id) h in
    b ∙ ap (is_online v) (sym a)

pub unbind-FreeInv :
    (now : ℕ) (v : View) (n : NodeInfo)
    → n.online ≡ is_online v n.id
    → FreeInv v
    → FreeInv (run v (unbind_commands now n))
unfolding FreeInv
unbind-FreeInv now v n h inv j f =
    let f' = rw (is_free-unbind now v n j) at f in
    rw (is_online-unbind now v n j, bound_to-unbind now v n j)
      (ground (arith, inv j, str_eq_iff n.id j))

pub bind-FreeInv :
    (now : ℕ) (v : View) (u : UserInfo) (n : NodeInfo)
    → FreeInv v
    → FreeInv (run v (bind_commands now u n))
unfolding FreeInv
bind-FreeInv now v u n inv j f =
    let f' = rw (is_free-bind now v u n j) at f in
    rw (is_online-bind now v u n j, bound_to-bind now v u n j) (ground (arith, inv j))

pub switch-FreeInv :
    (now : ℕ) (v : View) (u : UserInfo) (from_node to_node : NodeInfo)
    → from_node.online ≡ is_online v from_node.id
    → FreeInv v
    → FreeInv (run v (switch_commands now u from_node to_node))
unfolding FreeInv
switch-FreeInv now v u from_node to_node h inv j f =
    let f' = rw (is_free-switch now v u from_node to_node j) at f in
    rw (is_online-switch now v u from_node to_node j, bound_to-switch now v u from_node to_node j)
      (ground (arith, inv j, str_eq_iff from_node.id j))

pub online-FreeInv :
    (now registered : ℕ) (v : View) (n : NodeInfo)
    → (is_free v n.id ≡ true → n.bind_user ≡ [])
    → FreeInv v
    → FreeInv (run v (online_commands now registered n))
unfolding FreeInv
online-FreeInv now registered v n h inv j f =
    let f' = rw (is_free-online now registered v n j) at f in
    rw (is_online-online now registered v n j, bound_to-online now registered v n j)
      (ground (arith, inv j, str_eq_iff n.id j))
