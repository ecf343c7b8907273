-- ===== src/Rpc/Create/Binding.antt =====
-- What CreateUser stores when it binds a user to a node.
use titan_ipoverlay.Prelude.{
  ℕ, ◌≡◌, refl, sym, subst, ◌∙◌, false, [], ◌∷◌, arith, Bool-cases, inl, inr,
}
use titan_ipoverlay.Prelude.Str.{Str, str_eq, str_eq_refl}
use titan_ipoverlay.Prelude.Exec.{ok, pure, ◌>>◌, bind-eq-ok}
use titan_ipoverlay.Prelude.Assoc.{Assoc, merge}
use titan_ipoverlay.Redis.{Redis, View, run, apply, zadd}
use titan_ipoverlay.Model
use titan_ipoverlay.Model.{
  NodeInfo, UserInfo, user_to_map, redis_key_user, redis_key_user_route_scheduler,
  redis_key_node_free,
}
use titan_ipoverlay.Model.User.{add_user_to_scheduler_list}
use titan_ipoverlay.Model.Bind.{bind_node_with_new_user}
use titan_ipoverlay.Model.Bind.Commands.{bind_commands}
use titan_ipoverlay.Model.Bind.Views.{bound_to, is_free}
use titan_ipoverlay.Model.Bind.Effects.{bound_to-bind, is_free-bind, user_hash-bind}
use titan_ipoverlay.Model.Bind.Runs.{send-ok, node_of-some, bind_node_with_new_user-ok}
use titan_ipoverlay.Rpc.{
  CreateUserReq, CreateUserResp, Service, on_db, Route, TrafficLimit, is_mode,
}
use titan_ipoverlay.Rpc.Runs.{on_db-ok}
use titan_ipoverlay.Rpc.Create.{bind_to, schedule, new_user}

-- The user's fields are stored under its name, over what was there.
abbrev pub Saved : View → UserInfo → Type 0
Saved v u = (m : Assoc Str) × (v.hash (redis_key_user u.user_name) ≡ merge (user_to_map u) m)

-- The user is stored with its node, which is its own and not free.
pub record Routed (v : View) (u : UserInfo) : Type 0 where
  pub bound : bound_to v u.route_node_id ≡ u.user_name
  pub taken : is_free v u.route_node_id ≡ false
  pub saved : Saved v u

bind-Routed :
    (now : ℕ) (v : View) (u : UserInfo) (n : NodeInfo)
    → n.id ≡ u.route_node_id
    → Routed (run v (bind_commands now u n)) u
bind-Routed now v u n h = record {
  bound = rw (bound_to-bind now v u n u.route_node_id, h, str_eq_refl u.route_node_id) refl;
  taken =
      rw (is_free-bind now v u n u.route_node_id, h, str_eq_refl u.route_node_id) (ground arith);
  saved = (v.hash (redis_key_user u.user_name), user_hash-bind now v u n);
}

module _ (r : Redis Model.Error) (md5_hex : Str → Str) (now next_month : ℕ) where
  scheduled-Routed :
      (v : View) (m : Str) (u : UserInfo)
      → Routed v u
      → Routed (run v (zadd redis_key_user_route_scheduler now m ∷ [])) u
  unfolding run apply bound_to is_free redis_key_node_free redis_key_user_route_scheduler str_eq
  scheduled-Routed v m u b = record { bound = b.bound; taken = b.taken; saved = b.saved }

  schedule-Routed :
      (u : UserInfo) (s : Service r) {x : Unit {0}}
      → (schedule r md5_hex now next_month u s).0 ≡ ok x
      → Routed (r.view s.db) u
      → Routed (r.view (schedule r md5_hex now next_month u s).1.db) u
  unfolding schedule add_user_to_scheduler_list on_db
  schedule-Routed u s h b = elim (Bool-cases (is_mode 3 u.route_mode)) [
    | inl e ↦
        let h' = rw e at h in
        rw e (added (on_db-ok r (add_user_to_scheduler_list r now u.user_name) s h'))
    | inr e ↦ rw e b
  ]
    where
      added :
          (add_user_to_scheduler_list r now u.user_name s.db).0 ≡ ok tt
          → Routed (r.view (add_user_to_scheduler_list r now u.user_name s.db).1) u
      added k =
          subst (λ w. Routed w u)
            (sym (send-ok r (zadd redis_key_user_route_scheduler now u.user_name ∷ []) s.db k))
            (scheduled-Routed (r.view s.db) u.user_name u b)

  pub bind_to-Routed :
      (req : CreateUserReq) (limit : TrafficLimit) (route : Route) (node : NodeInfo) (s : Service r)
      {resp : CreateUserResp}
      → (bind_to r md5_hex now next_month req limit route node s).0 ≡ ok resp
      → Routed
          (r.view (bind_to r md5_hex now next_month req limit route node s).1.db)
          (new_user r md5_hex now next_month req limit route)
  unfolding bind_to new_user on_db bind_node_with_new_user
  bind_to-Routed req limit route node s h =
      let u = new_user r md5_hex now next_month req limit route in
      let bind = on_db r (bind_node_with_new_user r now route.node_id u) in
      let s1 = (bind s).1 in
      let s2 = (schedule r md5_hex now next_month u s1).1 in
      let resp : CreateUserResp = record {
        user_name = req.user_name;
        traffic_limit = limit;
        route = route;
        node_ip = node.ip;
      } in
      let (x, e, k, q) =
        bind-eq-ok bind (λ x. do schedule r md5_hex now next_month u; pure resp) s h in
      let (y, e', k', q') =
        bind-eq-ok (schedule r md5_hex now next_month u) (λ y. pure resp) s1 k in
      let (n, st, free, v) =
        bind_node_with_new_user-ok r now route.node_id u s.db
          (on_db-ok r (bind_node_with_new_user r now route.node_id u) s e) in
      subst (λ t. Routed (r.view t.db) u) (sym (q ∙ q'))
        (schedule-Routed u s1 e' (
          subst (λ w. Routed w u) (sym v)
            (bind-Routed now (r.view s.db) u n (node_of-some route.node_id _ _ _ st).0)))
