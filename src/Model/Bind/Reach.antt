-- ===== src/Model/Bind/Reach.antt =====
-- Every sequence of the calls of node.go and bind.go, and the postconditions of a switch.
use titan_ipoverlay.Prelude.{
  Bool-cases, inl, inr, ℕ, ◌≤◌, ◌≡◌, ◌≢◌, refl, sym, ap, subst, ◌∙◌, true, false, Option, none,
  some, [], ◌∷◌, arith,
}
use titan_ipoverlay.Prelude.Str.{Str, str_eq, str_eq_iff, str_eq_refl}
use titan_ipoverlay.Prelude.Exec.{ok, lift, bind-eq-ok}
use titan_ipoverlay.Redis.{Redis, View, run, zadd, zrem, srem, del, sadd, apply}
use titan_ipoverlay.Model.{
  Error, NodeInfo, UserInfo, redis_key_node_free, redis_key_node_online, redis_key_node_blacklist,
}
use titan_ipoverlay.Model.Node.{
  handle_node_online, set_node_offline, delete_node_online_data, add_blacklist, remove_blacklist,
}
use titan_ipoverlay.Model.Bind.{
  add_free_node, remove_free_node, allocate_free_node, found_free, bind_node_with_new_user,
  unbind_node, switch_node_by_user,
}
use titan_ipoverlay.Model.Bind.Commands.{switch_commands}
use titan_ipoverlay.Model.Bind.Views.{bound_to, route_of, is_free, is_online}
use titan_ipoverlay.Model.Bind.Effects.{bound_to-switch, is_free-switch, route_of-switch}
use titan_ipoverlay.Model.Bind.Runs.{
  node_of-some, send-ok, unbind_node-ok, switch_node_by_user-ok, bind_node_with_new_user-ok,
  handle_node_online-ok,
}
use titan_ipoverlay.Model.Bind.FreeList.{
  FreeInv, stored_online, unbind-FreeInv, bind-FreeInv, switch-FreeInv, online-FreeInv,
}

module _ (r : Redis Error) where
  -- A call that succeeds. A node that comes online is given with the user that is stored for it, one
  -- that goes offline without a user is also taken from the free ones, and AddFreeNode is called for
  -- a node that is online and without a user.
  pub data Step : r.Db → r.Db → Type 0 where
    online :
        (now : ℕ) (parse_time : Str → Option ℕ) (n : NodeInfo) (db : r.Db)
        → n.bind_user ≡ bound_to (r.view db) n.id
        → (handle_node_online r now parse_time n db).0 ≡ ok tt
        → Step db (handle_node_online r now parse_time n db).1
    offline :
        (id : Str) (db : r.Db)
        → (set_node_offline r id db).0 ≡ ok tt
        → (remove_free_node r id (set_node_offline r id db).1).0 ≡ ok tt
        → Step db (remove_free_node r id (set_node_offline r id db).1).1
    offline_bound :
        (id : Str) (db : r.Db)
        → bound_to (r.view db) id ≢ []
        → (set_node_offline r id db).0 ≡ ok tt
        → Step db (set_node_offline r id db).1
    restart :
        (db : r.Db)
        → (delete_node_online_data r db).0 ≡ ok tt
        → Step db (delete_node_online_data r db).1
    free :
        (now : ℕ) (id : Str) (db : r.Db)
        → is_online (r.view db) id ≡ true
        → bound_to (r.view db) id ≡ []
        → (add_free_node r now id db).0 ≡ ok tt
        → Step db (add_free_node r now id db).1
    take :
        (id : Str) (db : r.Db)
        → (remove_free_node r id db).0 ≡ ok tt
        → Step db (remove_free_node r id db).1
    allocate :
        (id : Str) (db : r.Db)
        → (allocate_free_node r db).0 ≡ ok id
        → Step db (allocate_free_node r db).1
    bind :
        (now : ℕ) (id : Str) (user : UserInfo) (db : r.Db)
        → (bind_node_with_new_user r now id user db).0 ≡ ok tt
        → Step db (bind_node_with_new_user r now id user db).1
    unbind :
        (now : ℕ) (id : Str) (db : r.Db)
        → (unbind_node r now id db).0 ≡ ok tt
        → Step db (unbind_node r now id db).1
    switch :
        (now : ℕ) (user : UserInfo) (to_id : Str) (db : r.Db)
        → (switch_node_by_user r now user to_id db).0 ≡ ok tt
        → Step db (switch_node_by_user r now user to_id db).1
    blacklist :
        (id : Str) (db : r.Db)
        → (add_blacklist r id db).0 ≡ ok tt
        → Step db (add_blacklist r id db).1
    unblacklist :
        (id : Str) (db : r.Db)
        → (remove_blacklist r id db).0 ≡ ok tt
        → Step db (remove_blacklist r id db).1

  pub data Reach (start : r.Db) : r.Db → Type 0 where
    here : Reach start start
    next : (b c : r.Db) → Reach start b → Step b c → Reach start c

remove_free-FreeInv :
    (v : View) (id : Str) → FreeInv v → FreeInv (apply v (zrem redis_key_node_free id))
unfolding FreeInv is_free is_online bound_to apply redis_key_node_free str_eq
remove_free-FreeInv v id inv j f = inv j (ground arith)

add_free-FreeInv :
    (v : View) (now : ℕ) (id : Str)
    → is_online v id ≡ true
    → bound_to v id ≡ []
    → FreeInv v
    → FreeInv (run v (zadd redis_key_node_free now id ∷ []))
unfolding FreeInv is_free is_online bound_to run apply redis_key_node_free str_eq
add_free-FreeInv v now id on alone inv j f = elim (Bool-cases (str_eq id j)) [
  | inl e ↦
      subst (λ k. (is_online v k ≡ true) × (bound_to v k ≡ [])) ((str_eq_iff id j).0 e) (on, alone)
  | inr e ↦ let f' = rw e at f in inv j f'
]

offline-FreeInv :
    (v : View) (id : Str)
    → FreeInv v
    → FreeInv (run (run v (srem redis_key_node_online id ∷ [])) (zrem redis_key_node_free id ∷ []))
unfolding FreeInv is_free is_online bound_to run apply redis_key_node_free redis_key_node_online
    str_eq
offline-FreeInv v id inv j f = ground (arith, inv j)

offline_bound-FreeInv :
    (v : View) (id : Str)
    → bound_to v id ≢ []
    → FreeInv v
    → FreeInv (run v (srem redis_key_node_online id ∷ []))
unfolding FreeInv is_free is_online bound_to run apply redis_key_node_online str_eq
offline_bound-FreeInv v id has_user inv j f = elim (Bool-cases (str_eq id j)) [
  | inl e ↦ absurd (has_user (rw ((str_eq_iff id j).0 e) (inv j f).1))
  | inr e ↦ rw e (inv j f)
]

restart-FreeInv :
    (v : View) → FreeInv (run v (del redis_key_node_online ∷ del redis_key_node_free ∷ []))
unfolding FreeInv is_free run apply redis_key_node_free redis_key_node_online str_eq
restart-FreeInv v j f = cc

blacklist-FreeInv :
    (v : View) (id : Str)
    → FreeInv v
    → FreeInv (run v (sadd redis_key_node_blacklist id ∷ []))
      × FreeInv (run v (srem redis_key_node_blacklist id ∷ []))
unfolding FreeInv is_free is_online bound_to run apply redis_key_node_blacklist
    redis_key_node_online str_eq
blacklist-FreeInv v id inv = (inv, inv)

free_unbound :
    (v : View) (n : NodeInfo)
    → n.bind_user ≡ bound_to v n.id
    → FreeInv v
    → is_free v n.id ≡ true
    → n.bind_user ≡ []
unfolding FreeInv
free_unbound v n e inv f = let (a, b) = inv n.id f in e ∙ b

found_free_ok : (r : Redis Error) (o : Option Str) {id : Str} → found_free r o ≡ ok id → o ≡ some id
unfolding found_free
found_free_ok r none h = cc
found_free_ok r (some a) h = cc

module _ (r : Redis Error) where
  allocate_popped :
      (db : r.Db) {id : Str}
      → (allocate_free_node r db).0 ≡ ok id
      → ((r.zpopmin redis_key_node_free db).0 ≡ ok (some id))
        × ((allocate_free_node r db).1 ≡ (r.zpopmin redis_key_node_free db).1)
  unfolding allocate_free_node
  allocate_popped db h =
      let (o, e, k, s) =
        bind-eq-ok (r.zpopmin redis_key_node_free) (λ o. lift (found_free r o)) db h in
      (e ∙ ap ok (found_free_ok r o k), s)

  -- A node that AllocateFreeNode gives was free with the lowest score, and of the stored data only
  -- its membership in the free nodes changes.
  pub allocate_free_node-lowest :
      (db : r.Db) (id : Str)
      → (allocate_free_node r db).0 ≡ ok id
      → (score : ℕ) × ((r.view db).zset redis_key_node_free id ≡ some score)
        × ((j : Str) (other : ℕ)
            → (r.view db).zset redis_key_node_free j ≡ some other
            → score ≤ other)
        × (r.view (allocate_free_node r db).1 ≡ apply (r.view db) (zrem redis_key_node_free id))
  allocate_free_node-lowest db id h =
      let (e, s) = allocate_popped db h in
      let (score, a, b, c) = r.zpopmin_some redis_key_node_free db e in
      (score, a, b, ap r.view s ∙ c)

  -- Every call that succeeds keeps the free nodes online and without a user.
  pub Step-FreeInv : {a b : r.Db} → Step r a b → FreeInv (r.view a) → FreeInv (r.view b)
  unfolding set_node_offline add_free_node remove_free_node run delete_node_online_data
      add_blacklist remove_blacklist
  Step-FreeInv (online now parse_time n db e h) inv =
      let (registered, v) = handle_node_online-ok r now parse_time n db h in
      subst FreeInv (sym v)
        (online-FreeInv now registered (r.view db) n (free_unbound (r.view db) n e inv) inv)
  Step-FreeInv (offline id db h k) inv =
      let v = send-ok r (srem redis_key_node_online id ∷ []) db h in
      let w = send-ok r (zrem redis_key_node_free id ∷ []) (set_node_offline r id db).1 k in
      subst FreeInv (sym (w ∙ ap (λ v. run v (zrem redis_key_node_free id ∷ [])) v))
        (offline-FreeInv (r.view db) id inv)
  Step-FreeInv (offline_bound id db has_user h) inv =
      subst FreeInv (sym (send-ok r (srem redis_key_node_online id ∷ []) db h))
        (offline_bound-FreeInv (r.view db) id has_user inv)
  Step-FreeInv (restart db h) inv =
      subst FreeInv
        (sym (send-ok r (del redis_key_node_online ∷ del redis_key_node_free ∷ []) db h))
        (restart-FreeInv (r.view db))
  Step-FreeInv (free now id db on alone h) inv =
      subst FreeInv (sym (send-ok r (zadd redis_key_node_free now id ∷ []) db h))
        (add_free-FreeInv (r.view db) now id on alone inv)
  Step-FreeInv (take id db h) inv =
      subst FreeInv (sym (send-ok r (zrem redis_key_node_free id ∷ []) db h))
        (remove_free-FreeInv (r.view db) id inv)
  Step-FreeInv (allocate id db h) inv =
      let (score, a, b, c) = allocate_free_node-lowest db id h in
      subst FreeInv (sym c) (remove_free-FreeInv (r.view db) id inv)
  Step-FreeInv (bind now id user db h) inv =
      let (n, st, b, v) = bind_node_with_new_user-ok r now id user db h in
      subst FreeInv (sym v) (bind-FreeInv now (r.view db) user n inv)
  Step-FreeInv (unbind now id db h) inv =
      let (n, st, v) = unbind_node-ok r now id db h in
      subst FreeInv (sym v) (unbind-FreeInv now (r.view db) n (stored_online (r.view db) id st) inv)
  Step-FreeInv (switch now user to_id db h) inv =
      let (from_node, to_node, st, st', b, v) = switch_node_by_user-ok r now user to_id db h in
      subst FreeInv (sym v) (
        switch-FreeInv now (r.view db) user from_node to_node
          (stored_online (r.view db) user.route_node_id st) inv)
  Step-FreeInv (blacklist id db h) inv =
      subst FreeInv (sym (send-ok r (sadd redis_key_node_blacklist id ∷ []) db h))
        (blacklist-FreeInv (r.view db) id inv).0
  Step-FreeInv (unblacklist id db h) inv =
      subst FreeInv (sym (send-ok r (srem redis_key_node_blacklist id ∷ []) db h))
        (blacklist-FreeInv (r.view db) id inv).1

  -- From stored data whose free nodes are online and without a user, every sequence of the calls
  -- that succeed leads to such data, where a node comes online with the user that is stored for it,
  -- a node that goes offline without a user is also taken from the free ones, and AddFreeNode is
  -- called only for a node that is online and without a user.
  pub Reach-FreeInv : {a b : r.Db} → FreeInv (r.view a) → Reach r a b → FreeInv (r.view b)
  Reach-FreeInv inv here = inv
  Reach-FreeInv inv (next b c p s) = Step-FreeInv s (Reach-FreeInv inv p)

-- The user `name` went from one node to another, and the other nodes have the users that they had.
abbrev pub Moved : View → View → Str → Str → Str → Type 0
Moved v after name from_id to_id =
    (route_of after name ≡ to_id)
    × (bound_to after to_id ≡ name)
    × (is_free after to_id ≡ false)
    × (bound_to after from_id ≡ [])
    × (is_online v from_id ≡ true → is_free after from_id ≡ true)
    × ((j : Str) → j ≢ to_id → j ≢ from_id → bound_to after j ≡ bound_to v j)

switch-Moved :
    (now : ℕ) (v : View) (u : UserInfo) (from_node to_node : NodeInfo)
    → from_node.online ≡ is_online v from_node.id
    → from_node.id ≢ to_node.id
    → Moved v (run v (switch_commands now u from_node to_node)) u.user_name from_node.id to_node.id
switch-Moved now v u from_node to_node o d = (
  route_of-switch now v u from_node to_node,
  rw (bound_to-switch now v u from_node to_node to_node.id, str_eq_refl to_node.id) refl,
  rw (is_free-switch now v u from_node to_node to_node.id, str_eq_refl to_node.id) (ground arith),
  rw (bound_to-switch now v u from_node to_node from_node.id, str_eq_refl from_node.id)
      (ground (arith, str_eq_iff to_node.id from_node.id)),
  λ on.
      rw (is_free-switch now v u from_node to_node from_node.id, str_eq_refl from_node.id)
        (ground (arith, str_eq_iff to_node.id from_node.id)),
  λ j a b.
      rw (bound_to-switch now v u from_node to_node j)
        (ground (arith, str_eq_iff to_node.id j, str_eq_iff from_node.id j)),
)

module _ (r : Redis Error) where
  -- After SwitchNodeByUser has moved a user between two nodes, the user is routed to the node it
  -- moved to, that node has the user and is not free, and the node it left has no user and is free
  -- if it is online; the other nodes have the users that they had.
  pub switch_node_by_user-Moved :
      (now : ℕ) (user : UserInfo) (to_id : Str) (db : r.Db)
      → (switch_node_by_user r now user to_id db).0 ≡ ok tt
      → user.route_node_id ≢ to_id
      → Moved
          (r.view db)
          (r.view (switch_node_by_user r now user to_id db).1)
          user.user_name
          user.route_node_id
          to_id
  switch_node_by_user-Moved now user to_id db h d =
      let (from_node, to_node, st, st', b, v) = switch_node_by_user-ok r now user to_id db h in
      let (from_id, _) = node_of-some user.route_node_id _ _ _ st in
      let (to_eq, _) = node_of-some to_id _ _ _ st' in
      let moved =
        switch-Moved now (r.view db) user from_node to_node
          (stored_online (r.view db) user.route_node_id st) (λ e. d (sym from_id ∙ e ∙ to_eq)) in
      subst (λ after. Moved (r.view db) after user.user_name user.route_node_id to_id) (sym v)
        (subst
          (λ i.
            Moved (r.view db) (run (r.view db) (switch_commands now user from_node to_node))
              user.user_name user.route_node_id i)
          to_eq
          (subst
            (λ i.
              Moved (r.view db) (run (r.view db) (switch_commands now user from_node to_node))
                user.user_name i to_node.id)
            from_id moved))
