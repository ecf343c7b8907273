-- ===== src/Model/Bind/Effects.antt =====
-- What each pipeline of node.go and bind.go does to every node and user.
use titan_ipoverlay.Prelude.{
  ℕ, ◌≡◌, refl, Bool, true, false, ◌&&◌, ◌||◌, not, List, [], ◌∷◌, ◌++◌, arith, if◌then◌else◌, inl,
  inr, Bool-cases, ◌∙◌,
}
use titan_ipoverlay.Prelude.Str.{Str, str_eq, str_eq_refl}
use titan_ipoverlay.Prelude.Assoc.{merge}
use titan_ipoverlay.Redis.{View, Cmd, hset, zadd, zrem, sadd, apply, run}
use titan_ipoverlay.Model.{
  NodeInfo, UserInfo, node_to_map, user_to_map, redis_key_node, redis_key_user, redis_key_node_bind,
  redis_key_node_free, redis_key_node_online, redis_key_node_zset, redis_key_user_zset,
}
use titan_ipoverlay.Model.Node.{online_commands, is_empty}
use titan_ipoverlay.Model.Bind.Commands.{
  bind_commands, unbind_commands, switch_commands, switched_user,
}
use titan_ipoverlay.Model.Bind.Views.{
  bound_to, route_of, is_free, is_online, stored_bind_user, stored_route, node_key_eq, user_key_eq,
  user_node_key, node_user_key,
}

pub bound_to-hset_node :
    (v : View) (n : NodeInfo) (j : Str)
    → bound_to (apply v (hset (redis_key_node n.id) (node_to_map n))) j
      ≡ (if str_eq n.id j then n.bind_user else bound_to v j)
unfolding bound_to apply
bound_to-hset_node v n j = rw (node_key_eq n.id j) (elim (Bool-cases (str_eq n.id j)) [
  | inl e ↦ rw (e, stored_bind_user n (v.hash (redis_key_node n.id))) refl
  | inr e ↦ rw e refl
])

pub bound_to-hset_user :
    (v : View) (u : UserInfo) (j : Str)
    → bound_to (apply v (hset (redis_key_user u.user_name) (user_to_map u))) j ≡ bound_to v j
unfolding bound_to apply
bound_to-hset_user v u j = rw (user_node_key u.user_name j) refl

pub route_of-hset_user :
    (v : View) (u : UserInfo) (j : Str)
    → route_of (apply v (hset (redis_key_user u.user_name) (user_to_map u))) j
      ≡ (if str_eq u.user_name j then u.route_node_id else route_of v j)
unfolding route_of apply
route_of-hset_user v u j =
    rw (user_key_eq u.user_name j) (elim (Bool-cases (str_eq u.user_name j)) [
      | inl e ↦ rw (e, stored_route u (v.hash (redis_key_user u.user_name))) refl
      | inr e ↦ rw e refl
    ])

unbound_hash :
    (now : ℕ) (v : View) (n : NodeInfo) (j : Str)
    → bound_to
        (run v (hset (redis_key_node n.id) (node_to_map n) ∷ zrem redis_key_node_bind n.id ∷ []))
        j
      ≡ (if str_eq n.id j then n.bind_user else bound_to v j)
unfolding run apply bound_to
unbound_hash now v n j = unfold bound_to in bound_to-hset_node v n j

-- The last command of UnbindNode says nothing of the hashes.
free_again_hash :
    (now : ℕ) (v : View) (id : Str) (b : Bool) (j : Str)
    → bound_to (run v (if b then zadd redis_key_node_free now id ∷ [] else [])) j ≡ bound_to v j
unfolding run apply bound_to
free_again_hash now v id true j = refl
free_again_hash now v id false j = refl

pub bound_to-unbind :
    (now : ℕ) (v : View) (n : NodeInfo) (j : Str)
    → bound_to (run v (unbind_commands now n)) j ≡ (if str_eq n.id j then [] else bound_to v j)
unfolding run apply unbind_commands
bound_to-unbind now v n j =
    free_again_hash now
      (run v (
        hset (redis_key_node n.id) (node_to_map (record n { bind_user = [] }))
        ∷ zrem redis_key_node_bind n.id
        ∷ []))
      n.id n.online j
    ∙ unbound_hash now v (record n { bind_user = [] }) j

pub is_free-unbind :
    (now : ℕ) (v : View) (n : NodeInfo) (j : Str)
    → is_free (run v (unbind_commands now n)) j ≡ (is_free v j || (n.online && str_eq n.id j))
unfolding run apply unbind_commands is_free redis_key_node_free redis_key_node_bind str_eq
is_free-unbind now v n j = ground arith

pub run-append : (v : View) (a b : List Cmd) → run v (a ++ b) ≡ run (run v a) b
unfolding run
run-append v [] b = refl
run-append v (c ∷ a) b = run-append (apply v c) a b

bind_tail :
    (now : ℕ) (v : View) (u : UserInfo) (n : NodeInfo) (j : Str)
    → bound_to
        (run v (
          hset (redis_key_user u.user_name) (user_to_map u)
          ∷ zadd redis_key_user_zset now u.user_name
          ∷ zadd redis_key_node_bind now n.id
          ∷ zrem redis_key_node_free n.id
          ∷ []))
        j
      ≡ bound_to v j
unfolding run apply bound_to
bind_tail now v u n j = unfold bound_to in bound_to-hset_user v u j

pub bound_to-bind :
    (now : ℕ) (v : View) (u : UserInfo) (n : NodeInfo) (j : Str)
    → bound_to (run v (bind_commands now u n)) j
      ≡ (if str_eq n.id j then u.user_name else bound_to v j)
unfolding run bind_commands
bound_to-bind now v u n j =
    bind_tail now
      (apply v (hset (redis_key_node n.id) (node_to_map (record n { bind_user = u.user_name })))) u
      n j
    ∙ bound_to-hset_node v (record n { bind_user = u.user_name }) j

pub is_free-bind :
    (now : ℕ) (v : View) (u : UserInfo) (n : NodeInfo) (j : Str)
    → is_free (run v (bind_commands now u n)) j ≡ (is_free v j && not (str_eq n.id j))
unfolding run apply bind_commands is_free redis_key_node_free redis_key_node_bind
    redis_key_user_zset str_eq
is_free-bind now v u n j = ground arith

switch_tail :
    (now : ℕ) (v : View) (u : UserInfo) (n : NodeInfo) (j : Str)
    → bound_to
        (run v (
          hset (redis_key_node n.id) (node_to_map (record n { bind_user = u.user_name }))
          ∷ hset (redis_key_user u.user_name) (user_to_map (switched_user now u n))
          ∷ zadd redis_key_node_bind now n.id
          ∷ zrem redis_key_node_free n.id
          ∷ []))
        j
      ≡ (if str_eq n.id j then u.user_name else bound_to v j)
unfolding run apply bound_to switched_user
switch_tail now v u n j =
    (unfold bound_to switched_user in
      bound_to-hset_user
        (apply v (hset (redis_key_node n.id) (node_to_map (record n { bind_user = u.user_name }))))
        (switched_user now u n) j)
    ∙ (unfold bound_to in bound_to-hset_node v (record n { bind_user = u.user_name }) j)

pub bound_to-switch :
    (now : ℕ) (v : View) (u : UserInfo) (from_node to_node : NodeInfo) (j : Str)
    → bound_to (run v (switch_commands now u from_node to_node)) j ≡ (
        if str_eq to_node.id j
        then u.user_name
        else if str_eq from_node.id j
        then []
        else bound_to v j)
unfolding switch_commands
bound_to-switch now v u from_node to_node j =
    rw
      (
        run-append v (unbind_commands now from_node) (
            hset (redis_key_node to_node.id)
              (node_to_map (record to_node { bind_user = u.user_name }))
            ∷ hset (redis_key_user u.user_name) (user_to_map (switched_user now u to_node))
            ∷ zadd redis_key_node_bind now to_node.id
            ∷ zrem redis_key_node_free to_node.id
            ∷ []),
        switch_tail now (run v (unbind_commands now from_node)) u to_node j,
        bound_to-unbind now v from_node j,
      )
      refl

pub is_free-switch :
    (now : ℕ) (v : View) (u : UserInfo) (from_node to_node : NodeInfo) (j : Str)
    → is_free (run v (switch_commands now u from_node to_node)) j
      ≡ ((is_free v j || (from_node.online && str_eq from_node.id j)) && not (str_eq to_node.id j))
unfolding run apply switch_commands unbind_commands is_free redis_key_node_free redis_key_node_bind
    str_eq
is_free-switch now v u from_node to_node j = ground arith

route_tail :
    (now : ℕ) (u : UserInfo) (to_node : NodeInfo) (v : View)
    → route_of
        (run v (
          hset
            (redis_key_node to_node.id)
            (node_to_map (record to_node { bind_user = u.user_name }))
          ∷ hset (redis_key_user u.user_name) (user_to_map (switched_user now u to_node))
          ∷ zadd redis_key_node_bind now to_node.id
          ∷ zrem redis_key_node_free to_node.id
          ∷ []))
        u.user_name
      ≡ to_node.id
unfolding run apply route_of switched_user
route_tail now u to_node v =
    (unfold route_of switched_user in
      route_of-hset_user
        (apply v (
          hset (redis_key_node to_node.id)
            (node_to_map (record to_node { bind_user = u.user_name }))))
        (switched_user now u to_node) u.user_name)
    ∙ ground (arith, str_eq_refl u.user_name)

pub route_of-switch :
    (now : ℕ) (v : View) (u : UserInfo) (from_node to_node : NodeInfo)
    → route_of (run v (switch_commands now u from_node to_node)) u.user_name ≡ to_node.id
unfolding switch_commands
route_of-switch now v u from_node to_node =
    rw
      (run-append v (unbind_commands now from_node) (
        hset (redis_key_node to_node.id) (node_to_map (record to_node { bind_user = u.user_name }))
        ∷ hset (redis_key_user u.user_name) (user_to_map (switched_user now u to_node))
        ∷ zadd redis_key_node_bind now to_node.id
        ∷ zrem redis_key_node_free to_node.id
        ∷ []))
      (route_tail now u to_node (run v (unbind_commands now from_node)))

online_hash :
    (now registered : ℕ) (n : NodeInfo) (j : Str) (v : View)
    → bound_to
        (run v (
          hset (redis_key_node n.id) (node_to_map n)
          ∷ zadd redis_key_node_zset registered n.id
          ∷ sadd redis_key_node_online n.id
          ∷ []))
        j
      ≡ (if str_eq n.id j then n.bind_user else bound_to v j)
unfolding run apply bound_to
online_hash now registered n j v = unfold bound_to in bound_to-hset_node v n j

pub bound_to-online :
    (now registered : ℕ) (v : View) (n : NodeInfo) (j : Str)
    → bound_to (run v (online_commands now registered n)) j
      ≡ (if str_eq n.id j then n.bind_user else bound_to v j)
unfolding run apply online_commands
bound_to-online now registered v n j =
    free_again_hash now
      (run v (
        hset (redis_key_node n.id) (node_to_map n)
        ∷ zadd redis_key_node_zset registered n.id
        ∷ sadd redis_key_node_online n.id
        ∷ []))
      n.id (is_empty n.bind_user && not n.is_blacklisted) j
    ∙ online_hash now registered n j v

pub is_free-online :
    (now registered : ℕ) (v : View) (n : NodeInfo) (j : Str)
    → is_free (run v (online_commands now registered n)) j
      ≡ (is_free v j || (is_empty n.bind_user && not n.is_blacklisted && str_eq n.id j))
unfolding run apply online_commands is_free redis_key_node_free redis_key_node_zset str_eq
is_free-online now registered v n j = ground arith

pub is_online-online :
    (now registered : ℕ) (v : View) (n : NodeInfo) (j : Str)
    → is_online (run v (online_commands now registered n)) j ≡ (is_online v j || str_eq n.id j)
unfolding run apply online_commands is_online redis_key_node_online redis_key_node_free str_eq
is_online-online now registered v n j = ground arith

pub is_online-unbind :
    (now : ℕ) (v : View) (n : NodeInfo) (j : Str)
    → is_online (run v (unbind_commands now n)) j ≡ is_online v j
unfolding run apply unbind_commands is_online
is_online-unbind now v n j = ground arith

pub is_online-bind :
    (now : ℕ) (v : View) (u : UserInfo) (n : NodeInfo) (j : Str)
    → is_online (run v (bind_commands now u n)) j ≡ is_online v j
unfolding run apply bind_commands is_online
is_online-bind now v u n j = refl

pub is_online-switch :
    (now : ℕ) (v : View) (u : UserInfo) (from_node to_node : NodeInfo) (j : Str)
    → is_online (run v (switch_commands now u from_node to_node)) j ≡ is_online v j
unfolding run apply switch_commands unbind_commands is_online
is_online-switch now v u from_node to_node j = ground arith

pub route_of-bind :
    (now : ℕ) (v : View) (u : UserInfo) (n : NodeInfo)
    → route_of (run v (bind_commands now u n)) u.user_name ≡ u.route_node_id
unfolding run apply bind_commands route_of
route_of-bind now v u n =
    (unfold route_of in
      route_of-hset_user
        (apply v (hset (redis_key_node n.id) (node_to_map (record n { bind_user = u.user_name }))))
        u u.user_name)
    ∙ ground (arith, str_eq_refl u.user_name)

pub user_hash-bind :
    (now : ℕ) (v : View) (u : UserInfo) (n : NodeInfo)
    → (run v (bind_commands now u n)).hash (redis_key_user u.user_name)
      ≡ merge (user_to_map u) (v.hash (redis_key_user u.user_name))
unfolding run apply bind_commands
user_hash-bind now v u n =
    rw (str_eq_refl (redis_key_user u.user_name), node_user_key n.id u.user_name) refl
