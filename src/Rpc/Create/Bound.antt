-- ===== src/Rpc/Create/Bound.antt =====
-- What CreateUser stores for a user that gets a node.
use titan_ipoverlay.Prelude.{
  ℕ, ◌≡◌, refl, sym, subst, Bool, true, false, Option, none, some, arith, if◌then◌else◌,
}
use titan_ipoverlay.Prelude.Str.{Str}
use titan_ipoverlay.Prelude.Exec.{ok, err, pure, lift, ◌>>◌, ◌>>=◌, bind-eq-ok, bind-last}
use titan_ipoverlay.Redis.{Redis}
use titan_ipoverlay.Model
use titan_ipoverlay.Model.{
  NodeInfo, user_to_map, redis_key_user, redis_key_user_route_scheduler, redis_key_node_free,
}
use titan_ipoverlay.Model.Node.{get_node}
use titan_ipoverlay.Model.User.{get_user}
use titan_ipoverlay.Model.Bind.{bind_node_with_new_user}
use titan_ipoverlay.Prelude.Int.{ℤ, pos, negsuc, ◌<ℤ◌, leb_ℤ, ltb_ℤ}
use titan_ipoverlay.Rpc.{RpcError, check_traffic, bad_times, out_of_date, bad_total_traffic}
use titan_ipoverlay.Rpc.{
  CreateUserReq, CreateUserResp, Service, on_db, Route, TrafficLimit, is_mode, check_route,
}
use titan_ipoverlay.Rpc.Create.{
  default_traffic_limit, create_user, create_checked, create_bound, bind_to, bind_new, has_node_id,
  node_found, schedule, new_user, with_node_id, route_or_default, limit_or_default, check_limit,
  create_user_without_bind_device,
}
use titan_ipoverlay.Rpc.Create.Named.{create_user-checked}
use titan_ipoverlay.Rpc.Create.Described.{Described, Chosen, Kept, with_node_id-Chosen}
use titan_ipoverlay.Rpc.Create.Binding.{Routed, bind_to-Routed}

abbrev pub is_custom : Option Route → Bool
is_custom none = false
is_custom (some route) = is_mode 4 route.mode

checks-pass :
    (a b c : Bool) (e e' e'' : RpcError) {x : Unit {0}}
    → (if a then err e else if b then err e' else if c then err e'' else ok tt) ≡ ok x
    → c ≡ false
checks-pass true b c e e' e'' h = absurd (cc h)
checks-pass false true c e e' e'' h = absurd (cc h)
checks-pass false false true e e' e'' h = absurd (cc h)
checks-pass false false false e e' e'' h = refl

above_0 : (z : ℤ) → leb_ℤ z (pos 0) ≡ false → pos 0 <ℤ z
above_0 (pos n) h = ground arith
above_0 (negsuc n) h = ground arith

module _ (r : Redis Model.Error) (md5_hex : Str → Str) (now next_month : ℕ) where
  abbrev pub HasTraffic : TrafficLimit → Type 0
  HasTraffic limit = pos 0 <ℤ limit.total_traffic

  check_limit-HasTraffic :
      (o : Option TrafficLimit) {x : Unit {0}}
      → check_limit r md5_hex now next_month o ≡ ok x
      → HasTraffic (limit_or_default r md5_hex now next_month o)
  unfolding check_limit limit_or_default check_traffic default_traffic_limit
  check_limit-HasTraffic none h = omega arith
  check_limit-HasTraffic (some t) h = above_0 t.total_traffic (
      checks-pass (leb_ℤ t.end_time t.start_time) (ltb_ℤ t.end_time (pos now))
        (leb_ℤ t.total_traffic (pos 0)) (bad_times t.start_time t.end_time) (out_of_date t.end_time)
        (bad_total_traffic t.total_traffic) h)

  bind_to-reply :
      (req : CreateUserReq) (limit : TrafficLimit) (route : Route) (node : NodeInfo) (s : Service r)
      {resp : CreateUserResp}
      → (bind_to r md5_hex now next_month req limit route node s).0 ≡ ok resp
      → (resp.route ≡ route) × (resp.traffic_limit ≡ limit) × (resp.user_name ≡ req.user_name)
  unfolding bind_to
  bind_to-reply req limit route node s h =
      let u = new_user r md5_hex now next_month req limit route in
      let bind = on_db r (bind_node_with_new_user r now route.node_id u) in
      let given : CreateUserResp = record {
        user_name = req.user_name;
        traffic_limit = limit;
        route = route;
        node_ip = node.ip;
      } in
      let (x, e, k, q) =
        bind-eq-ok bind (λ x. do schedule r md5_hex now next_month u; pure given) s h in
      let (y, e', k', q') =
        bind-eq-ok (schedule r md5_hex now next_month u) (λ y. pure given) (bind s).1 k in
      (cc, cc, cc)

  -- The user of the request, with the traffic and the node of the reply, is stored, and has traffic;
  -- the reply keeps to what was asked for.
  abbrev pub RoutedReply : CreateUserReq → CreateUserResp → Service r → Type 0
  RoutedReply req resp t =
      Routed (r.view t.db) (new_user r md5_hex now next_month req resp.traffic_limit resp.route)
      × HasTraffic resp.traffic_limit
      × Kept r md5_hex now next_month req resp

  -- The limit and the route that are used are those of the request.
  abbrev Asked : CreateUserReq → TrafficLimit → Route → Type 0
  Asked req limit route =
      HasTraffic limit
      × (limit ≡ limit_or_default r md5_hex now next_month req.traffic_limit)
      × Chosen (route_or_default req.route) route

  bind_to-RoutedReply :
      (req : CreateUserReq) (limit : TrafficLimit) (route : Route) (node : NodeInfo) (s : Service r)
      (resp : CreateUserResp)
      → Asked req limit route
      → (bind_to r md5_hex now next_month req limit route node s).0 ≡ ok resp
      → RoutedReply req resp (bind_to r md5_hex now next_month req limit route node s).1
  bind_to-RoutedReply req limit route node s resp left h =
      let (a, b, named) = bind_to-reply req limit route node s h in
      rw (a, b)
        (
          bind_to-Routed r md5_hex now next_month req limit route node s h,
          left.0,
          (named, left.1, left.2),
        )

  bind_new-RoutedReply :
      (req : CreateUserReq) (limit : TrafficLimit) (route : Route) (s : Service r)
      (resp : CreateUserResp)
      → Asked req limit route
      → (bind_new r md5_hex now next_month req limit route s).0 ≡ ok resp
      → RoutedReply req resp (bind_new r md5_hex now next_month req limit route s).1
  unfolding bind_new
  bind_new-RoutedReply req limit route s resp left h =
      let P = RoutedReply req in
      let to = bind_to r md5_hex now next_month req limit route in
      let get = on_db r (get_node r route.node_id) in
      let node_of = node_found r md5_hex now next_month route.node_id in
      bind-last P (lift (has_node_id r md5_hex now next_month route route.node_id))
        (λ x. do found ← get; node ← lift (node_of found); to node)
        (λ x t b e.
          bind-last P get (λ found. do node ← lift (node_of found); to node)
            (λ found t b e.
              bind-last P (lift (node_of found)) to
                (λ node t b e. bind_to-RoutedReply req limit route node t b left e) t b e)
            t b e)
        s resp h

  create_bound-RoutedReply :
      (req : CreateUserReq) (s : Service r) (resp : CreateUserResp)
      → (create_bound r md5_hex now next_month req s).0 ≡ ok resp
      → RoutedReply req resp (create_bound r md5_hex now next_month req s).1
  unfolding create_bound
  create_bound-RoutedReply req s resp h =
      let P = RoutedReply req in
      let limit = limit_or_default r md5_hex now next_month req.traffic_limit in
      let asked = route_or_default req.route in
      let choose = with_node_id r md5_hex now next_month asked asked.node_id in
      let new = bind_new r md5_hex now next_month req limit in
      let check = lift (check_limit r md5_hex now next_month req.traffic_limit) in
      let (u, passed, k, q) = bind-eq-ok check (λ x. do route ← choose; new route) s h in
      let left = check_limit-HasTraffic req.traffic_limit passed in
      bind-last P check (λ x. do route ← choose; new route)
        (λ x t b e.
          let (route, chosen, e', q') = bind-eq-ok choose new t e in
          subst (P b) (sym q') (
            bind_new-RoutedReply req limit route (choose t).1 b
              (left, refl, with_node_id-Chosen r md5_hex now next_month asked t chosen) e'))
        s resp h

  create_checked-RoutedReply :
      (req : CreateUserReq) (o : Option Route) (s : Service r) (resp : CreateUserResp)
      → is_custom o ≡ false
      → (create_checked r md5_hex now next_month req o s).0 ≡ ok resp
      → RoutedReply req resp (create_checked r md5_hex now next_month req o s).1
  unfolding create_checked
  create_checked-RoutedReply req none s resp c h = create_bound-RoutedReply req s resp h
  create_checked-RoutedReply req (some route) s resp c h =
      let P = RoutedReply req in
      bind-last P (check_route r route)
        (λ x.
          if is_mode 4 route.mode
          then create_user_without_bind_device r md5_hex now next_month req route
          else create_bound r md5_hex now next_month req)
        (λ x t b e. rw c (let e' = rw c at e in create_bound-RoutedReply req t b e')) s resp h

  pub create_user-RoutedReply :
      (req : CreateUserReq) (s : Service r) {resp : CreateUserResp}
      → is_custom req.route ≡ false
      → (create_user r md5_hex now next_month req s).0 ≡ ok resp
      → RoutedReply req resp (create_user r md5_hex now next_month req s).1
  create_user-RoutedReply req s {resp = resp} c h =
      let t = (on_db r (get_user r req.user_name) s).1 in
      let q = create_user-checked r md5_hex now next_month req s h in
      subst (λ u. RoutedReply req resp u) (sym q.2)
        (create_checked-RoutedReply req req.route t resp c q.0)
