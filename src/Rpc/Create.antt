-- ===== src/Rpc/Create.antt =====
-- createuserlogic.go of ippop/rpc/internal/logic.
pub mod Named
pub mod Described
pub mod Binding
pub mod Bound
pub mod SignIn
use titan_ipoverlay.Prelude.{
  ℕ, Bool, true, false, ◌||◌, ◌==◌, ◌*◌, Option, none, some, List, [], ◌∷◌, if◌then◌else◌,
}
use titan_ipoverlay.Prelude.Str.{Str}
use titan_ipoverlay.Prelude.Int.{ℤ, pos}
use titan_ipoverlay.Prelude.Exec.{Result, ok, err, Exec, lift, pure, raise, ◌>>=◌, ◌>>◌}
use titan_ipoverlay.Redis.{Redis}
use titan_ipoverlay.Model
use titan_ipoverlay.Model.{NodeInfo, UserInfo}
use titan_ipoverlay.Model.Node.{get_node}
use titan_ipoverlay.Model.User.{get_user, save_user, zadd_user, add_user_to_scheduler_list}
use titan_ipoverlay.Model.Bind.{allocate_free_node, bind_node_with_new_user}
use titan_ipoverlay.Rpc.{
  RpcError, user_exists, bad_user_name, node_missing, not_enough_nodes, Route, TrafficLimit,
  CreateUserReq, CreateUserResp, auto_mode, is_mode, check_traffic, check_route, on_db, Rpc,
}

-- 1000 GB
abbrev pub default_total_traffic : ℤ
default_total_traffic = pos (1000 * 1024 * 1024 * 1024)

-- strings.Contains(name, "-")
unfoldable pub contains_dash : Str → Bool
contains_dash [] = false
contains_dash (c ∷ cs) = (c == 45) || contains_dash cs

abbrev pub default_route : Route
default_route = record {
  mode = auto_mode;
  node_id = [];
  interval_minutes = pos 0;
  utc_minute_of_day = pos 0;
}

abbrev pub route_or_default : Option Route → Route
route_or_default none = default_route
route_or_default (some route) = route

-- `next_month` is time.Now().AddDate(0, 1, 0).Unix(), and `md5_hex` is md5.Sum, in hexadecimal.
module _ (r : Redis Model.Error) (md5_hex : Str → Str) (now next_month : ℕ) where
  unfoldable pub default_traffic_limit : TrafficLimit
  default_traffic_limit = record {
    start_time = pos now;
    end_time = pos next_month;
    total_traffic = default_total_traffic;
  }

  pub limit_or_default : Option TrafficLimit → TrafficLimit
  unfolding default_traffic_limit
  limit_or_default none = default_traffic_limit
  limit_or_default (some t) = t

  check_limit : Option TrafficLimit → Result RpcError (Unit {0})
  check_limit none = ok tt
  check_limit (some t) = check_traffic now t

  -- The user that a request describes; one that is bound to no node keeps its zero values.
  unfoldable pub new_user : CreateUserReq → TrafficLimit → Route → UserInfo
  new_user req limit route = record {
    user_name = req.user_name;
    password_md5 = md5_hex req.password;
    start_time = limit.start_time;
    end_time = limit.end_time;
    total_traffic = limit.total_traffic;
    current_traffic = pos 0;
    top_bandwidth = pos 0;
    route_mode = route.mode;
    route_node_id = route.node_id;
    update_route_interval_minutes = route.interval_minutes;
    update_route_utc_minute_of_day = route.utc_minute_of_day;
    last_route_switch_time = pos now;
    off = false;
    upload_rate_limit = req.upload_rate_limit;
    download_rate_limit = req.download_rate_limit;
  }

  abbrev pub unrouted : Route → Route
  unrouted route = record {
    mode = route.mode;
    node_id = [];
    interval_minutes = pos 0;
    utc_minute_of_day = pos 0;
  }

  unfoldable pub create_user_without_bind_device : CreateUserReq → Route → Rpc r CreateUserResp
  unfolding limit_or_default check_limit
  create_user_without_bind_device req route = do
    lift (check_limit req.traffic_limit)
    let limit = limit_or_default req.traffic_limit
    on_db r (save_user r (new_user req limit (unrouted route)))
    on_db r (zadd_user r now req.user_name)
    pure (record { user_name = req.user_name; traffic_limit = limit; route = route; node_ip = [] })

  -- The route with a node: its own, or one that is free.
  pub with_node_id : Route → Str → Rpc r Route
  with_node_id route [] = do
    id ← on_db r (allocate_free_node r)
    pure (record route { node_id = id })
  with_node_id route (c ∷ cs) = pure route

  unfoldable pub has_node_id : Route → Str → Result RpcError (Unit {0})
  has_node_id route [] = err not_enough_nodes
  has_node_id route (c ∷ cs) = ok tt

  unfoldable pub node_found : Str → Option NodeInfo → Result RpcError NodeInfo
  node_found id none = err (node_missing id)
  node_found id (some n) = ok n

  schedule : UserInfo → Rpc r (Unit {0})
  schedule user =
      if is_mode 3 user.route_mode
      then on_db r (add_user_to_scheduler_list r now user.user_name)
      else pure tt

  pub bind_to : CreateUserReq → TrafficLimit → Route → NodeInfo → Rpc r CreateUserResp
  unfolding schedule
  bind_to req limit route node = do
    let user = new_user req limit route
    on_db r (bind_node_with_new_user r now route.node_id user)
    schedule user
    pure (record {
      user_name = req.user_name;
      traffic_limit = limit;
      route = route;
      node_ip = node.ip;
    })

  bind_new : CreateUserReq → TrafficLimit → Route → Rpc r CreateUserResp
  unfolding has_node_id node_found bind_to
  bind_new req limit route = do
    lift (has_node_id route route.node_id)
    found ← on_db r (get_node r route.node_id)
    node ← lift (node_found route.node_id found)
    bind_to req limit route node

  create_bound : CreateUserReq → Rpc r CreateUserResp
  unfolding bind_new with_node_id limit_or_default check_limit
  create_bound req = do
    lift (check_limit req.traffic_limit)
    let asked = route_or_default req.route
    route ← with_node_id asked asked.node_id
    bind_new req (limit_or_default req.traffic_limit) route

  unfoldable pub absent : Str → Option UserInfo → Result RpcError (Unit {0})
  absent name none = ok tt
  absent name (some u) = err (user_exists name)

  unfoldable pub check_name : Str → Result RpcError (Unit {0})
  check_name name = if contains_dash name then err (bad_user_name name) else ok tt

  pub create_checked : CreateUserReq → Option Route → Rpc r CreateUserResp
  unfolding create_bound
  create_checked req none = create_bound req
  create_checked req (some route) = do
    check_route r route
    if is_mode 4 route.mode then create_user_without_bind_device req route else create_bound req

  unfoldable pub create_user : CreateUserReq → Rpc r CreateUserResp
  unfolding absent check_name create_checked
  create_user req = do
    found ← on_db r (get_user r req.user_name)
    lift (absent req.user_name found)
    lift (check_name req.user_name)
    create_checked req req.route
