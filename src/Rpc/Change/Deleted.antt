-- ===== src/Rpc/Change/Deleted.antt =====
-- What DeleteUser leaves of a user.
use titan_ipoverlay.Prelude.{
  ℕ, ◌≡◌, refl, sym, ap, subst, ◌∙◌, Bool, true, false, Option, none, some, [], ◌∷◌, if◌then◌else◌,
}
use titan_ipoverlay.Prelude.Str.{Str, str_eq, str_eq_refl}
use titan_ipoverlay.Prelude.Exec.{ok, pure, lift, ◌>>◌, bind-eq-ok, Ensures, Ensures-bind}
use titan_ipoverlay.Redis.{Redis, View, run, apply, zadd, zrem, hset, del}
use titan_ipoverlay.Model
use titan_ipoverlay.Model.{
  NodeInfo, UserInfo, redis_key_node, redis_key_user, redis_key_user_zset, redis_key_node_bind,
  redis_key_node_free, redis_key_user_route_scheduler, node_to_map,
}
use titan_ipoverlay.Model.Node.{send}
use titan_ipoverlay.Model.User.{
  get_user, delete_user as remove_user, remove_user_from_scheduler_list,
}
use titan_ipoverlay.Model.Bind.{unbind_node}
use titan_ipoverlay.Model.Bind.Commands.{unbind_commands}
use titan_ipoverlay.Model.Bind.Views.{bound_to, node_user_key}
use titan_ipoverlay.Model.Bind.Effects.{bound_to-unbind}
use titan_ipoverlay.Model.Bind.Runs.{send-ok, unbind_node-ok, node_of-some}
use titan_ipoverlay.Rpc.{Service, on_db, delete_cache, Rpc, is_mode}
use titan_ipoverlay.Rpc.Change.{delete_user, existing_user, user_found, unbind_route}
use titan_ipoverlay.Rpc.Runs.{on_db-ok}

-- Nothing is stored under the user's name, and the user is not listed.
pub record Gone (v : View) (name : Str) : Type 0 where
  pub no_hash : v.hash (redis_key_user name) ≡ []
  pub unlisted : v.zset redis_key_user_zset name ≡ none

removed-Gone :
    (v : View) (name : Str)
    → Gone (run (run v (del (redis_key_user name) ∷ [])) (zrem redis_key_user_zset name ∷ [])) name
unfolding run apply
removed-Gone v name = record {
  no_hash = rw (str_eq_refl (redis_key_user name)) refl;
  unlisted = rw (str_eq_refl redis_key_user_zset, str_eq_refl name) refl;
}

unscheduled-Gone :
    (v : View) (m name : Str)
    → Gone v name
    → Gone (run v (zrem redis_key_user_route_scheduler m ∷ [])) name
unfolding run apply redis_key_user_route_scheduler redis_key_user_zset str_eq
unscheduled-Gone v m name g = record { no_hash = g.no_hash; unlisted = g.unlisted }

unbound-Gone :
    (now : ℕ) (v : View) (n : NodeInfo) (name : Str)
    → Gone v name
    → Gone (run v (unbind_commands now n)) name
unfolding run apply unbind_commands redis_key_user_zset redis_key_node_bind redis_key_node_free
    str_eq
unbound-Gone now v n name g = go n.online
  where
    go :
        (b : Bool)
        → Gone
            (run v (
              hset (redis_key_node n.id) (node_to_map (record n { bind_user = [] }))
              ∷ zrem redis_key_node_bind n.id
              ∷ (if b then zadd redis_key_node_free now n.id ∷ [] else [])))
            name
    go true = record { no_hash = rw (node_user_key n.id name) g.no_hash; unlisted = g.unlisted }
    go false = record { no_hash = rw (node_user_key n.id name) g.no_hash; unlisted = g.unlisted }

module _ (r : Redis Model.Error) (name : Str) where
  abbrev Left : Service r → Type 0
  Left s = Gone (r.view s.db) name

  remove-Left : Ensures (λ s. Unit {0}) (on_db r (remove_user r name)) (λ a t. Left t)
  unfolding on_db remove_user
  remove-Left s a i h =
      let first = del (redis_key_user name) ∷ [] in
      let second = zrem redis_key_user_zset name ∷ [] in
      let (x, e, k, q) =
        bind-eq-ok (send r first) (λ x. send r second) s.db (on_db-ok r (remove_user r name) s h) in
      let db = (send r first s.db).1 in
      subst (λ v. Gone v name)
        (sym
          (ap r.view q ∙ send-ok r second db k ∙ ap (λ v. run v second) (send-ok r first s.db e)))
        (removed-Gone (r.view s.db) name)

  unschedule-Left : Ensures Left (on_db r (remove_user_from_scheduler_list r name)) (λ a t. Left t)
  unfolding on_db remove_user_from_scheduler_list
  unschedule-Left s a i h =
      subst (λ v. Gone v name)
        (sym (
          send-ok r (zrem redis_key_user_route_scheduler name ∷ []) s.db
            (on_db-ok r (remove_user_from_scheduler_list r name) s h)))
        (unscheduled-Gone (r.view s.db) name name i)

  -- The node that the user was routed to has no user.
  abbrev pub Freed : Str → Service r → Type 0
  Freed [] s = Unit {0}
  Freed (c ∷ cs) s = bound_to (r.view s.db) (c ∷ cs) ≡ []

  abbrev Over : Str → Service r → Type 0
  Over route s = Left s × Freed route s

  unbind-Over :
      (now : ℕ) (route : Str) → Ensures Left (unbind_route r now route) (λ a t. Over route t)
  unfolding unbind_route on_db
  unbind-Over now [] s a i h = (i, tt)
  unbind-Over now (c ∷ cs) s a i h =
      let id = c ∷ cs in
      let (n, st, v) = unbind_node-ok r now id s.db (on_db-ok r (unbind_node r now id) s h) in
      let same = (node_of-some id _ _ _ st).0 in
      (
        subst (λ w. Gone w name) (sym v) (unbound-Gone now (r.view s.db) n name i),
        ap (λ w. bound_to w id) v
            ∙ bound_to-unbind now (r.view s.db) n id
            ∙ rw (same, str_eq_refl id) refl,
      )

  unschedule_if-Left :
      (b : Bool)
      → Ensures Left
          (if b then on_db r (remove_user_from_scheduler_list r name) else pure tt)
          (λ a t. Left t)
  unschedule_if-Left true = unschedule-Left
  unschedule_if-Left false = λ s a i h. i

  forget-Over : (route : Str) → Ensures (Over route) (delete_cache r name) (λ a t. Over route t)
  unfolding delete_cache
  forget-Over [] s a i h = i
  forget-Over (c ∷ cs) s a i h = i

  abbrev deletion : ℕ → UserInfo → Rpc r (Unit {0})
  deletion now u = do
    on_db r (remove_user r name)
    if is_mode 3 u.route_mode then on_db r (remove_user_from_scheduler_list r name) else pure tt
    unbind_route r now u.route_node_id
    delete_cache r name

  after_found :
      (now : ℕ) (u : UserInfo)
      → Ensures (λ s. Unit {0}) (deletion now u) (λ a t. Over u.route_node_id t)
  after_found now u =
      let left : Unit {0} → Service r → Type 0 = λ a t. Left t in
      let over : Unit {0} → Service r → Type 0 = λ a t. Over u.route_node_id t in
      let m1 = on_db r (remove_user r name) in
      let m2 =
        if is_mode 3 u.route_mode
        then on_db r (remove_user_from_scheduler_list r name)
        else pure tt in
      let m3 = unbind_route r now u.route_node_id in
      let m4 = delete_cache r name in
      Ensures-bind (λ s. Unit {0}) left over m1 (λ x. do m2; m3; m4) remove-Left
        (λ x.
          Ensures-bind Left left over m2 (λ x. do m3; m4)
            (unschedule_if-Left (is_mode 3 u.route_mode))
            (λ x.
              Ensures-bind Left over over m3 (λ x. m4) (unbind-Over now u.route_node_id)
                (λ x. forget-Over u.route_node_id)))

  found_user :
      (s : Service r) (o : Option UserInfo) (u : UserInfo) → user_found r name o ≡ ok u → o ≡ some u
  unfolding user_found
  found_user s none u h = absurd (cc h)
  found_user s (some v) u h = cc

  -- If DeleteUser succeeds, it has found the user; nothing is stored under the user's name, the user
  -- is not listed, and the node that the user was routed to, if any, is bound to no user.
  pub delete_user-Gone :
      (now : ℕ) (s : Service r)
      → (delete_user r now name s).0 ≡ ok tt
      → let t = (delete_user r now name s).1 in
        (u : UserInfo) × ((on_db r (get_user r name) s).0 ≡ ok (some u))
        × Gone (r.view t.db) name
        × Freed u.route_node_id t
  unfolding delete_user
  delete_user-Gone now s h =
      let (u, e, k, q) = bind-eq-ok (existing_user r name) (deletion now) s h in
      let (o, e', k', q') =
        bind-eq-ok (on_db r (get_user r name)) (λ found. lift (user_found r name found)) s e in
      let t = (existing_user r name s).1 in
      let over = after_found now u t tt tt k in
      (
        u,
        e' ∙ ap ok (found_user s o u k'),
        subst (λ w. Gone (r.view w.db) name) (sym q) over.0,
        subst (λ w. Freed u.route_node_id w) (sym q) over.1,
      )
