-- ===== src/Rpc/Create/Described.antt =====
-- How the user that CreateUser stores comes from the request.
use titan_ipoverlay.Prelude.{ℕ, ◌≡◌, ◌≢◌, refl, ap, subst, ◌∙◌, false, none, some, [], ◌∷◌}
use titan_ipoverlay.Prelude.Str.{Str}
use titan_ipoverlay.Prelude.Int.{pos}
use titan_ipoverlay.Prelude.Exec.{ok, pure, bind-eq-ok}
use titan_ipoverlay.Redis.{Redis}
use titan_ipoverlay.Model
use titan_ipoverlay.Model.{UserInfo}
use titan_ipoverlay.Model.Bind.{allocate_free_node}
use titan_ipoverlay.Rpc.{CreateUserReq, CreateUserResp, Service, Route, TrafficLimit, on_db}
use titan_ipoverlay.Rpc.Create.{
  new_user, limit_or_default, default_traffic_limit, route_or_default, with_node_id,
}

-- The stored user is the one that the request describes: a limit that is not given is a month from
-- now with 1000 GiB, and a route that is not given is automatic.
pub record Described (md5_hex : Str → Str) (now next_month : ℕ) (req : CreateUserReq)
    (resp : CreateUserResp) (u : UserInfo) : Type 0 where
  pub name : u.user_name ≡ req.user_name
  pub password : u.password_md5 ≡ md5_hex req.password
  pub upload : u.upload_rate_limit ≡ req.upload_rate_limit
  pub download : u.download_rate_limit ≡ req.download_rate_limit
  pub limit :
      (t : TrafficLimit)
      → req.traffic_limit ≡ some t
      → (u.start_time ≡ t.start_time)
        × (u.end_time ≡ t.end_time)
        × (u.total_traffic ≡ t.total_traffic)
  pub month :
      req.traffic_limit ≡ none
      → (u.start_time ≡ pos now)
        × (u.end_time ≡ pos next_month)
        × (u.total_traffic ≡ pos 1073741824000)
  pub route :
      (w : Route)
      → req.route ≡ some w
      → (u.route_mode ≡ w.mode)
        × (u.update_route_interval_minutes ≡ w.interval_minutes)
        × (u.update_route_utc_minute_of_day ≡ w.utc_minute_of_day)
        × (w.node_id ≢ [] → u.route_node_id ≡ w.node_id)
  pub auto :
      req.route ≡ none
      → (u.route_mode ≡ pos 1)
        × (u.update_route_interval_minutes ≡ pos 0)
        × (u.update_route_utc_minute_of_day ≡ pos 0)
  pub unused : (u.current_traffic ≡ pos 0) × (u.off ≡ false) × (u.last_route_switch_time ≡ pos now)
  pub replied :
      (resp.user_name ≡ u.user_name)
      × (resp.route.node_id ≡ u.route_node_id)
      × (resp.traffic_limit.total_traffic ≡ u.total_traffic)

-- The route that is used is the one that is asked for, with a node if it names none.
abbrev pub Chosen : Route → Route → Type 0
Chosen asked got =
    (got.mode ≡ asked.mode)
    × (got.interval_minutes ≡ asked.interval_minutes)
    × (got.utc_minute_of_day ≡ asked.utc_minute_of_day)
    × (asked.node_id ≢ [] → got.node_id ≡ asked.node_id)

module _ (r : Redis Model.Error) (md5_hex : Str → Str) (now next_month : ℕ) where
  pub with_node_id-Chosen :
      (asked : Route) (s : Service r) {route : Route}
      → (with_node_id r md5_hex now next_month asked asked.node_id s).0 ≡ ok route
      → Chosen asked route
  unfolding with_node_id
  with_node_id-Chosen asked s {route = route} h = go asked.node_id refl h
    where
      go :
          (id : Str)
          → asked.node_id ≡ id
          → (with_node_id r md5_hex now next_month asked id s).0 ≡ ok route
          → Chosen asked route
      go [] e k =
          let (id, popped, done, _) =
            bind-eq-ok (on_db r (allocate_free_node r)) (λ id. pure (record asked { node_id = id }))
              s k in
          let same : record asked { node_id = id } ≡ route = cc in
          subst (Chosen asked) same (refl, refl, refl, λ named. absurd (named e))
      go (c ∷ cs) e k =
          let same : asked ≡ route = cc in subst (Chosen asked) same (refl, refl, refl, λ n. refl)

  abbrev pub Kept : CreateUserReq → CreateUserResp → Type 0
  Kept req resp =
      (resp.user_name ≡ req.user_name)
      × (resp.traffic_limit ≡ limit_or_default r md5_hex now next_month req.traffic_limit)
      × Chosen (route_or_default req.route) resp.route

  pub Kept-Described :
      (req : CreateUserReq) (resp : CreateUserResp)
      → Kept req resp
      → Described md5_hex now next_month req resp
          (new_user r md5_hex now next_month req resp.traffic_limit resp.route)
  unfolding new_user limit_or_default default_traffic_limit
  Kept-Described req resp (named, limited, chosen) = record {
    name = refl;
    password = refl;
    upload = refl;
    download = refl;
    limit = λ t e.
        let given : resp.traffic_limit ≡ t =
          limited ∙ ap (limit_or_default r md5_hex now next_month) e in
        (ap (λ l. l.start_time) given, ap (λ l. l.end_time) given, ap (λ l. l.total_traffic) given);
    month = λ e.
        let given = limited ∙ ap (limit_or_default r md5_hex now next_month) e in
        (ap (λ l. l.start_time) given, ap (λ l. l.end_time) given, ap (λ l. l.total_traffic) given);
    route = λ w e.
        let asked : route_or_default req.route ≡ w = ap route_or_default e in
        subst (λ w. Chosen w resp.route) asked chosen;
    auto = λ e.
        let (a, b, c, d) = subst (λ o. Chosen (route_or_default o) resp.route) e chosen in
        (a, b, c);
    unused = (refl, refl, refl);
    replied = (named, refl, refl);
  }
