-- ===== src/Ws/Switch/Effect.antt =====
-- What a switch of a user to a free node comes to.
use titan_ipoverlay.Prelude.{ℕ, ◌≡◌, ◌≢◌, refl, sym, ap, ◌∙◌, subst, true, none, [], ◌∷◌}
use titan_ipoverlay.Prelude.Str.{Str}
use titan_ipoverlay.Prelude.Exec.{Result, ok, err}
use titan_ipoverlay.Redis.{Redis, zadd}
use titan_ipoverlay.Model.{Error, UserInfo, redis_key_node_free}
use titan_ipoverlay.Model.Bind.{allocate_free_node, add_free_node, switch_node_by_user}
use titan_ipoverlay.Model.Bind.Views.{is_free}
use titan_ipoverlay.Model.Bind.Reach.{Moved, switch_node_by_user-Moved}
use titan_ipoverlay.Model.Bind.Outcomes.{Reliable, send_answers, is_free-zadd}
use titan_ipoverlay.Model.Bind.Runs.{send-ok}
use titan_ipoverlay.Ws.SignIn.{UserCache, World, delete_user_from_cache}
use titan_ipoverlay.Ws.Switch.{after_switch, on_node, switch_node_for_user}

module _ (r : Redis Error) (answers : Reliable r) (cache : UserCache) (unix : ℕ)
    (user : UserInfo) where
  -- The user has moved to the free node, or that node is free again.
  abbrev pub Switched : r.Db → Str → Result Error (Unit {0}) → World r cache → Type 0
  Switched before id (ok t) w =
      (cache.find user.user_name w.0 ≡ none)
      × (user.route_node_id ≢ id
          → Moved (r.view before) (r.view w.1) user.user_name user.route_node_id id)
  Switched before id (err e) w = is_free (r.view w.1) id ≡ true

  free_again : (id : Str) (db : r.Db) → is_free (r.view (add_free_node r unix id db).1) id ≡ true
  unfolding add_free_node
  free_again id db =
      let cs = zadd redis_key_node_free unix id ∷ [] in
      ap (λ v. is_free v id) (send-ok r cs db (send_answers r answers cs db))
      ∙ is_free-zadd r answers (r.view db) unix id

  after_switch-Switched :
      (before : r.Db) (id : Str) (s : cache.Store) (p : Result Error (Unit {0}) × r.Db)
      → switch_node_by_user r unix user id before ≡ p
      → let out = after_switch r cache unix user id s p in Switched before id out.0 out.1
  unfolding after_switch delete_user_from_cache
  after_switch-Switched before id s (err e, db) h = free_again id db
  after_switch-Switched before id s (ok t, db) h = (
    cache.find_remove user.user_name s,
    λ d.
        subst (λ q. Moved (r.view before) (r.view q.1) user.user_name user.route_node_id id) h
          (switch_node_by_user-Moved r unix user id before (ap (λ q. q.0) h) d),
  )

  on_node-Switched :
      (s : cache.Store) (p : Result Error Str × r.Db) (id : Str)
      → p.0 ≡ ok id
      → let out = on_node r cache unix user s p in Switched p.1 id out.0 out.1
  unfolding on_node
  on_node-Switched s (err e, db) id h = cc
  on_node-Switched s (ok i, db) id h =
      let same : i ≡ id = cc in
      rw (sym same) (after_switch-Switched db i s (switch_node_by_user r unix user i db) refl)

  -- When Redis answers and a free node is allocated, switchNodeForUser either moves the user to it
  -- and drops the user from the cache, or returns an error with that node free again.
  pub switch_node_for_user-Switched :
      (s : cache.Store) (db : r.Db) (id : Str)
      → (allocate_free_node r db).0 ≡ ok id
      → let out = switch_node_for_user r cache unix user (s, db) in
        Switched (allocate_free_node r db).1 id out.0 out.1
  unfolding switch_node_for_user
  switch_node_for_user-Switched s db id h = on_node-Switched s (allocate_free_node r db) id h
