-- ===== src/Rpc/Change/Failures.antt =====
-- Calls of ippop/rpc/internal/logic that fail after they have checked their request.
use titan_ipoverlay.Prelude.{ℕ, ◌≡◌, refl, ap, ◌∙◌, true, none, some, [], ◌∷◌}
use titan_ipoverlay.Prelude.Str.{Str}
use titan_ipoverlay.Prelude.Exec.{Result, ok, err, Exec}
use titan_ipoverlay.Redis.{Redis, zadd}
use titan_ipoverlay.Model
use titan_ipoverlay.Model.{NodeInfo, UserInfo, redis_key_node_free}
use titan_ipoverlay.Model.User.{get_user}
use titan_ipoverlay.Model.Bind.{switch_node_by_user, add_free_node}
use titan_ipoverlay.Model.Bind.Views.{is_free}
use titan_ipoverlay.Model.Bind.Outcomes.{Reliable, send_answers, is_free-zadd}
use titan_ipoverlay.Model.Bind.Runs.{send-ok}
use titan_ipoverlay.Rpc.{
  RpcError, failed, panicked, TrafficLimit, Service, on_db, as_rpc, check_traffic,
}
use titan_ipoverlay.Rpc.Change.{
  modify_user, switch_user_route_node, check_node, asked_node, user_found, check_optional_route,
  check_optional_limit, not_empty, not_routed, with_route, switch_or_free, free_if_failed,
}

module _ (r : Redis Model.Error) where
  -- ModifyUser with a valid traffic limit and no route, for a user that exists, reads through the
  -- nil route: it panics, and what is stored and cached is as after the lookup of the user.
  pub modify_user-without_route :
      (now : ℕ) (name : Str) (limit : TrafficLimit) (s : Service r) (u : UserInfo)
      → check_traffic now limit ≡ ok tt
      → (on_db r (get_user r name) s).0 ≡ ok (some u)
      → modify_user r now (record { user_name = name; route = none; traffic_limit = some limit }) s
        ≡ (err panicked, (on_db r (get_user r name) s).1)
  unfolding modify_user user_found check_optional_route check_optional_limit not_empty not_routed
      with_route
  modify_user-without_route now name limit s u h e = rw (h, e) refl

  on_db-err :
      (m : Exec Model.Error r.Db (Unit {0})) (t : Service r) (e : Model.Error)
      → (m t.db).0 ≡ err e
      → (on_db r m t).0 ≡ err (failed e)
  unfolding on_db as_rpc
  on_db-err m t e h = ap as_rpc h

  freed :
      (now : ℕ) (id : Str) (e : RpcError) (p : Result RpcError (Unit {0}) × Service r)
      → p.0 ≡ err e
      → free_if_failed r now id p ≡ (err e, (on_db r (add_free_node r now id) p.1).1)
  unfolding free_if_failed
  freed now id e (ok u, s) h = absurd (cc h)
  freed now id e (err x, s) h = cc

  free_view :
      (now : ℕ) (id : Str) (s : Service r)
      → Reliable r
      → is_free (r.view (on_db r (add_free_node r now id) s).1.db) id ≡ true
  unfolding on_db add_free_node
  free_view now id s answers =
      let cs = zadd redis_key_node_free now id ∷ [] in
      ap (λ w. is_free w id) (send-ok r cs s.db (send_answers r answers cs s.db))
      ∙ is_free-zadd r answers (r.view s.db) now id

  -- When Redis answers, if SwitchUserRouteNode has found the user and checked the node that the caller
  -- names, and cannot move the user, it returns the error and that node is among the free ones.
  pub switch_user_route_node-frees :
      (now : ℕ) (name : Str) (c : ℕ) (cs : Str) (s : Service r) (u : UserInfo) (e : Model.Error)
      → Reliable r
      → let id = c ∷ cs in
        let t = (on_db r (get_user r name) s).1 in
        let t' = (check_node r id t).1 in
        (on_db r (get_user r name) s).0 ≡ ok (some u)
        → (check_node r id t).0 ≡ ok tt
        → (switch_node_by_user r now u id t'.db).0 ≡ err e
        → ((switch_user_route_node r now name id s).0 ≡ err (failed e))
          × (is_free (r.view (switch_user_route_node r now name id s).1.db) id ≡ true)
  unfolding switch_user_route_node user_found asked_node switch_or_free
  switch_user_route_node-frees now name c cs s u e answers hu hc hs =
      let id = c ∷ cs in
      let t' = (check_node r id (on_db r (get_user r name) s).1).1 in
      let p = on_db r (switch_node_by_user r now u id) t' in
      let f = freed now id (failed e) p (on_db-err (switch_node_by_user r now u id) t' e hs) in
      rw (hu, hc, f) (refl, free_view now id p.1 answers)
