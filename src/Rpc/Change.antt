-- ===== src/Rpc/Change.antt =====
-- The calls of ippop/rpc/internal/logic that change users and nodes: modifyuserlogic.go,
-- switchuserroutenodelogic.go, deleteuserlogic.go, startorstopuserlogic.go,
-- modifyuserpasswordlogic.go, addblacklistlogic.go, removeblacklistlogic.go and kicknodelogic.go.
-- Their replies with Success are `ok`, and those with an ErrMsg, as the errors, are `err`.
pub mod Failures
pub mod Deleted
use titan_ipoverlay.Prelude.{
  ℕ, Bool, true, false, ◌&&◌, not, Option, none, some, List, [], ◌∷◌, if◌then◌else◌,
}
use titan_ipoverlay.Prelude.Str.{Str, str_eq, codes}
use titan_ipoverlay.Prelude.Int.{ℤ, pos}
use titan_ipoverlay.Prelude.Exec.{Result, ok, err, Exec, lift, pure, raise, ◌>>=◌, ◌>>◌}
use titan_ipoverlay.Redis.{Redis}
use titan_ipoverlay.Model
use titan_ipoverlay.Model.{NodeInfo, UserInfo}
use titan_ipoverlay.Model.Node.{get_node, add_blacklist, remove_blacklist}
use titan_ipoverlay.Model.User.{
  get_user, save_user, delete_user as remove_user, add_user_to_scheduler_list,
  remove_user_from_scheduler_list,
}
use titan_ipoverlay.Model.Bind.{allocate_free_node, switch_node_by_user, unbind_node, add_free_node}
use titan_ipoverlay.Rpc.{
  RpcError, user_missing, node_missing, node_offline, node_used, already_routed, empty_request,
  panicked, bad_action, Route, TrafficLimit, ModifyUserReq, is_mode, check_traffic, check_route,
  on_db, delete_cache, node_unused, Rpc, Service,
}

module _ (r : Redis Model.Error) where
  unfoldable pub user_found : Str → Option UserInfo → Result RpcError UserInfo
  user_found name none = err (user_missing name)
  user_found name (some u) = ok u

  abbrev pub existing_user : Str → Rpc r UserInfo
  existing_user name = do found ← on_db r (get_user r name); lift (user_found name found)

  check_online : NodeInfo → Str → Result RpcError (Unit {0})
  check_online node id = if node.online then ok tt else err (node_offline id)

  -- checkNode
  unfoldable pub check_node : Str → Rpc r (Unit {0})
  unfolding check_online
  check_node id = do
    found ← on_db r (get_node r id)
    node ← lift (node_unused r id found)
    lift (check_online node id)

  -- The node that a request names, or one that is free.
  asked_node : Str → Rpc r Str
  unfolding check_node
  asked_node [] = on_db r (allocate_free_node r)
  asked_node (c ∷ cs) = do check_node (c ∷ cs); pure (c ∷ cs)

  free_if_failed :
      ℕ → Str → Result RpcError (Unit {0}) × Service r → Result RpcError (Unit {0}) × Service r
  free_if_failed now id (ok u, s) = (ok u, s)
  free_if_failed now id (err e, s) = (err e, (on_db r (add_free_node r now id) s).1)

  unfoldable pub switch_or_free : ℕ → UserInfo → Str → Rpc r (Unit {0})
  unfolding free_if_failed
  switch_or_free now user id s =
      free_if_failed now id (on_db r (switch_node_by_user r now user id) s)

  unfoldable pub switch_user_route_node : ℕ → Str → Str → Rpc r (Unit {0})
  unfolding asked_node
  switch_user_route_node now name node_id = do
    user ← existing_user name
    id ← asked_node node_id
    switch_or_free now user id
    delete_cache r name

  unbind_route : ℕ → Str → Rpc r (Unit {0})
  unbind_route now [] = pure tt
  unbind_route now (c ∷ cs) = on_db r (unbind_node r now (c ∷ cs))

  unfoldable pub delete_user : ℕ → Str → Rpc r (Unit {0})
  unfolding unbind_route
  delete_user now name = do
    user ← existing_user name
    on_db r (remove_user r name)
    if is_mode 3 user.route_mode then on_db r (remove_user_from_scheduler_list r name) else pure tt
    unbind_route now user.route_node_id
    delete_cache r name

  with_limit : Option TrafficLimit → UserInfo → UserInfo
  with_limit none u = u
  with_limit (some t) u = record u {
    start_time = t.start_time;
    end_time = t.end_time;
    total_traffic = t.total_traffic;
  }

  -- user.RouteMode = int(in.Route.Mode), which reads through a nil pointer without a route.
  with_route : Option Route → UserInfo → Result RpcError UserInfo
  with_route none u = err panicked
  with_route (some route) u = ok (record u {
    route_mode = route.mode;
    update_route_interval_minutes = route.interval_minutes;
    update_route_utc_minute_of_day = route.utc_minute_of_day;
  })

  not_routed : Str → Option Route → UserInfo → Result RpcError (Unit {0})
  not_routed name none u = ok tt
  not_routed name (some route) u =
      if str_eq u.route_node_id route.node_id
      then err (already_routed name u.route_node_id)
      else ok tt

  store_modified : ℕ → Option Route → Option TrafficLimit → UserInfo → Rpc r (Unit {0})
  store_modified now (some route) limit user =
      on_db r (switch_node_by_user r now user route.node_id)
  store_modified now none (some t) user = on_db r (save_user r user)
  store_modified now none none user = pure tt

  reschedule : ℕ → Bool → UserInfo → Rpc r (Unit {0})
  reschedule now was_timed user =
      if not was_timed && is_mode 3 user.route_mode
      then on_db r (add_user_to_scheduler_list r now user.user_name)
      else if was_timed && not (is_mode 3 user.route_mode)
      then on_db r (remove_user_from_scheduler_list r user.user_name)
      else pure tt

  check_optional_route : Option Route → Rpc r (Unit {0})
  check_optional_route none = pure tt
  check_optional_route (some route) = check_route r route

  check_optional_limit : ℕ → Option TrafficLimit → Result RpcError (Unit {0})
  check_optional_limit now none = ok tt
  check_optional_limit now (some t) = check_traffic now t

  not_empty : Option TrafficLimit → Option Route → Result RpcError (Unit {0})
  not_empty none none = err empty_request
  not_empty _ _ = ok tt

  unfoldable pub modify_user : ℕ → ModifyUserReq → Rpc r (Unit {0})
  unfolding with_limit with_route not_routed store_modified reschedule check_optional_route
      check_optional_limit not_empty
  modify_user now req = do
    lift (not_empty req.traffic_limit req.route)
    lift (check_optional_limit now req.traffic_limit)
    check_optional_route req.route
    user ← existing_user req.user_name
    lift (not_routed req.user_name req.route user)
    routed ← lift (with_route req.route user)
    let changed = with_limit req.traffic_limit routed
    store_modified now req.route req.traffic_limit changed
    reschedule now (is_mode 3 user.route_mode) changed
    delete_cache r req.user_name

  stored_and_dropped : UserInfo → Str → Rpc r (Unit {0})
  stored_and_dropped user name = do on_db r (save_user r user); delete_cache r name

  -- The action "stop", or "start".
  is_stop : Str → Result RpcError Bool
  is_stop action =
      if str_eq action (codes "start")
      then ok false
      else if str_eq action (codes "stop")
      then ok true
      else err bad_action

  unfoldable pub start_or_stop_user : Str → Str → Rpc r (Unit {0})
  unfolding is_stop stored_and_dropped
  start_or_stop_user name action = do
    stop ← lift (is_stop action)
    user ← existing_user name
    stored_and_dropped (record user { off = stop }) name

  unfoldable pub modify_user_password : (Str → Str) → Str → Str → Rpc r (Unit {0})
  unfolding stored_and_dropped
  modify_user_password md5_hex name password = do
    user ← existing_user name
    stored_and_dropped (record user { password_md5 = md5_hex password }) name

  -- What svcCtx hands on to the tunnel manager: SwitchNode and Kick.
  pub record Manager : Type 0 where
    pub switch_node : Str → Rpc r (Unit {0})
    pub kick : Str → Rpc r (Unit {0})

  module _ (manager : Manager) where
    some_node : Str → Option NodeInfo → Result RpcError NodeInfo
    some_node id none = err (node_missing id)
    some_node id (some n) = ok n

    switch_bound : Str → Rpc r (Unit {0})
    switch_bound [] = pure tt
    switch_bound (c ∷ cs) = manager.switch_node (c ∷ cs)

    -- An error of Kick is only logged.
    kick_anyway : Str → Rpc r (Unit {0})
    kick_anyway id s = (ok tt, (manager.kick id s).1)

    unfoldable pub blacklist_node : Str → Rpc r (Unit {0})
    unfolding some_node switch_bound kick_anyway
    blacklist_node id = do
      found ← on_db r (get_node r id)
      node ← lift (some_node id found)
      switch_bound node.bind_user
      on_db r (add_blacklist r id)
      kick_anyway id

    unfoldable pub unblacklist_node : Str → Rpc r (Unit {0})
    unfolding kick_anyway
    unblacklist_node id = do on_db r (remove_blacklist r id); kick_anyway id

    unfoldable pub kick_node : Str → Rpc r (Unit {0})
    kick_node id = manager.kick id
