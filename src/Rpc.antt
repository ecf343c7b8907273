-- ===== src/Rpc.antt =====
-- ippop/rpc/internal/logic: the calls that administer users and nodes. Its requests, errors and
-- state, and the checks of check.go. `now` is time.Now().Unix().
pub mod Create
pub mod Change
pub mod Runs
mod Tests
use titan_ipoverlay.Prelude.{
  ℕ, Bool, true, false, ◌&&◌, ◌||◌, not, ◌==◌, Option, none, some, List, [], ◌∷◌, if◌then◌else◌,
}
use titan_ipoverlay.Prelude.Str.{Str}
use titan_ipoverlay.Prelude.Int.{ℤ, pos, negsuc, ltb_ℤ, leb_ℤ}
use titan_ipoverlay.Prelude.Exec.{Result, ok, err, Exec, lift, pure, raise, ◌>>=◌, ◌>>◌}
use titan_ipoverlay.Redis.{Redis}
use titan_ipoverlay.Model
use titan_ipoverlay.Model.{NodeInfo, UserInfo}
use titan_ipoverlay.Model.Node.{get_node}

-- `failed` is an error of the package model.
pub data RpcError : Type 0 where
  failed : Model.Error → RpcError
  user_exists user_missing bad_user_name node_missing node_offline : Str → RpcError
  node_used already_routed : Str → Str → RpcError
  bad_route_mode bad_total_traffic : ℤ → RpcError
  bad_times : ℤ → ℤ → RpcError
  out_of_date : ℤ → RpcError
  not_enough_nodes empty_request bad_action not_kicked panicked : RpcError

pub record Route : Type 0 where
  pub mode : ℤ
  pub node_id : Str
  pub interval_minutes : ℤ
  pub utc_minute_of_day : ℤ

pub record TrafficLimit : Type 0 where
  pub start_time : ℤ
  pub end_time : ℤ
  pub total_traffic : ℤ

pub record CreateUserReq : Type 0 where
  pub user_name : Str
  pub password : Str
  pub route : Option Route
  pub traffic_limit : Option TrafficLimit
  pub upload_rate_limit : ℤ
  pub download_rate_limit : ℤ

pub record CreateUserResp : Type 0 where
  pub user_name : Str
  pub traffic_limit : TrafficLimit
  pub route : Route
  pub node_ip : Str

pub record ModifyUserReq : Type 0 where
  pub user_name : Str
  pub route : Option Route
  pub traffic_limit : Option TrafficLimit

-- RouteModeAuto, RouteModeManual, RouteModeTimed and RouteModeCustom.
abbrev pub auto_mode : ℤ
auto_mode = pos 1

abbrev pub manual_mode : ℤ
manual_mode = pos 2

abbrev pub timed_mode : ℤ
timed_mode = pos 3

abbrev pub custom_mode : ℤ
custom_mode = pos 4

unfoldable pub is_mode : ℕ → ℤ → Bool
is_mode n (pos m) = m == n
is_mode n (negsuc m) = false

unfoldable pub is_invalid_route_mode : ℤ → Bool
unfolding is_mode
is_invalid_route_mode mode =
    not (is_mode 2 mode) && (not (is_mode 1 mode) && (not (is_mode 3 mode) && not (is_mode 4 mode)))

unfoldable pub check_traffic : ℕ → TrafficLimit → Result RpcError (Unit {0})
check_traffic now t =
    if leb_ℤ t.end_time t.start_time
    then err (bad_times t.start_time t.end_time)
    else if ltb_ℤ t.end_time (pos now)
    then err (out_of_date t.end_time)
    else if leb_ℤ t.total_traffic (pos 0)
    then err (bad_total_traffic t.total_traffic)
    else ok tt

-- An error of the package model becomes one of this.
unfoldable pub as_rpc : {A : Type 0} → Result Model.Error A → Result RpcError A
as_rpc (ok a) = ok a
as_rpc (err e) = err (failed e)

-- The data, and the users whose entry was dropped from the cache of the tunnel manager
-- (svcCtx.DeleteCache), the last one first.
module _ (r : Redis Model.Error) where
  pub record Service : Type 0 where
    pub db : r.Db
    pub dropped : List Str

  abbrev pub Rpc : Type 0 → Type 0
  Rpc A = Exec RpcError Service A

  unfoldable pub on_db : {A : Type 0} → Exec Model.Error r.Db A → Rpc A
  unfolding as_rpc
  on_db m s = let (x, db) = m s.db in (as_rpc x, record s { db = db })

  unfoldable pub delete_cache : Str → Rpc (Unit {0})
  delete_cache name s = (ok tt, record s { dropped = name ∷ s.dropped })

  unfoldable pub node_unused : Str → Option NodeInfo → Result RpcError NodeInfo
  node_unused id none = err (node_missing id)
  node_unused id (some n) = elim n.bind_user [ [] ↦ ok n | c ∷ cs ↦ err (node_used id (c ∷ cs)) ]

  check_node_id : Str → Rpc (Unit {0})
  unfolding node_unused
  check_node_id [] = pure tt
  check_node_id (c ∷ cs) = do
    found ← on_db (get_node r (c ∷ cs))
    lift (node_unused (c ∷ cs) found)
    pure tt

  -- checkRoute of a route that is given.
  unfoldable pub check_route : Route → Rpc (Unit {0})
  unfolding check_node_id
  check_route route =
      if is_invalid_route_mode route.mode
      then raise (bad_route_mode route.mode)
      else check_node_id route.node_id
