-- ===== src/Model/Bind/Outcomes.antt =====
-- What the calls of bind.go return when Redis answers every pipeline, on each branch.
use titan_ipoverlay.Prelude.{ℕ, ◌≡◌, ◌≢◌, refl, ap, ◌∙◌, true, Option, none, some, List, [], ◌∷◌}
use titan_ipoverlay.Prelude.Str.{Str, str_eq_refl}
use titan_ipoverlay.Prelude.Exec.{Result, ok, err, Exec, lift, ◌>>=◌, continue}
use titan_ipoverlay.Redis.{Redis, View, Cmd, run, replies, reply, apply, hgetall, sismember, zadd}
use titan_ipoverlay.Model.{
  Error, node_not_exist, already_bound, NodeInfo, UserInfo, redis_key_node, redis_key_node_online,
  redis_key_node_blacklist, redis_key_node_free,
}
use titan_ipoverlay.Model.Node.{send, get_node, node_of_replies}
use titan_ipoverlay.Model.Bind.{
  existing, unbound, free_on_error, bind_found, bind_node_with_new_user, switch_node_by_user,
  add_free_node,
}
use titan_ipoverlay.Model.Bind.Commands.{bind_commands, switch_commands}
use titan_ipoverlay.Model.Bind.Views.{is_online, is_free, bound_to}
use titan_ipoverlay.Model.Bind.Runs.{stored_node, send-ok}

-- Redis answers every pipeline.
abbrev pub Reliable : Redis Error → Type 0
Reliable r = (cs : List Cmd) (db : r.Db) → (r.exec cs db).0 ≡ ok (replies (r.view db) cs)

-- What SwitchNodeByUser returns for the nodes that are stored under the two ids.
abbrev pub switch_outcome :
    Str
    → Str
    → Result Error (Option NodeInfo)
    → Result Error (Option NodeInfo)
    → Result Error (Unit {0})
switch_outcome from_id to_id (err e) _ = err e
switch_outcome from_id to_id (ok none) _ = err (node_not_exist from_id)
switch_outcome from_id to_id (ok (some from_node)) (err e) = err e
switch_outcome from_id to_id (ok (some from_node)) (ok none) = err (node_not_exist to_id)
switch_outcome from_id to_id (ok (some from_node)) (ok (some to_node)) = elim to_node.bind_user [
  | [] ↦ ok tt
  | c ∷ cs ↦ err (already_bound to_id (c ∷ cs))
]

module _ (r : Redis Error) (answers : Reliable r) where
  pub send_answers : (cs : List Cmd) (db : r.Db) → (send r cs db).0 ≡ ok tt
  send_answers cs db = rw (answers cs db) refl

  pub get_node_answers : (id : Str) (db : r.Db) → (get_node r id db).0 ≡ stored_node (r.view db) id
  unfolding get_node replies reply apply node_of_replies is_online
  get_node_answers id db =
      rw
        (answers
          (hgetall (redis_key_node id)
            ∷ sismember redis_key_node_online id
            ∷ sismember redis_key_node_blacklist id
            ∷ [])
          db)
        refl

  abbrev to_part : ℕ → UserInfo → Str → NodeInfo → Option NodeInfo → Exec Error r.Db (Unit {0})
  to_part now user to_id from_node to_found = do
    to_any ← lift (existing r to_id to_found)
    to_node ← lift (unbound r to_id to_any to_any.bind_user)
    send r (switch_commands now user from_node to_node)

  abbrev from_part : ℕ → UserInfo → Str → Option NodeInfo → Exec Error r.Db (Unit {0})
  from_part now user to_id from_found = do
    from_node ← lift (existing r user.route_node_id from_found)
    to_found ← get_node r to_id
    to_part now user to_id from_node to_found

  bound_outcome :
      (now : ℕ) (user : UserInfo) (to_id : Str) (from_node to_node : NodeInfo) (b : Str) (db : r.Db)
      → (continue
          (unbound r to_id to_node b)
          (λ n. send r (switch_commands now user from_node n))
          db).0
        ≡ elim b [ [] ↦ ok tt | c ∷ cs ↦ err (already_bound to_id (c ∷ cs)) ]
  unfolding unbound
  bound_outcome now user to_id from_node to_node [] db =
      send_answers (switch_commands now user from_node to_node) db
  bound_outcome now user to_id from_node to_node (c ∷ cs) db = refl

  to_outcome :
      (now : ℕ) (user : UserInfo) (to_id : Str) (from_node : NodeInfo)
      (y : Result Error (Option NodeInfo)) (db : r.Db)
      → (continue y (to_part now user to_id from_node) db).0
        ≡ switch_outcome user.route_node_id to_id (ok (some from_node)) y
  unfolding existing
  to_outcome now user to_id from_node (err e) db = refl
  to_outcome now user to_id from_node (ok none) db = refl
  to_outcome now user to_id from_node (ok (some n)) db =
      bound_outcome now user to_id from_node n n.bind_user db

  from_outcome :
      (now : ℕ) (user : UserInfo) (to_id : Str) (x : Result Error (Option NodeInfo)) (db : r.Db)
      → (continue x (from_part now user to_id) db).0
        ≡ switch_outcome user.route_node_id to_id x (stored_node (r.view db) to_id)
  unfolding existing
  from_outcome now user to_id (err e) db = refl
  from_outcome now user to_id (ok none) db = refl
  from_outcome now user to_id (ok (some n)) db =
      to_outcome now user to_id n (get_node r to_id db).0 (get_node r to_id db).1
      ∙ ap (switch_outcome user.route_node_id to_id (ok (some n))) (get_node_answers to_id db)

  get_node_view : (id : Str) (db : r.Db) → r.view (get_node r id db).1 ≡ r.view db
  unfolding get_node
  get_node_view id db =
      rw
        (answers
          (hgetall (redis_key_node id)
            ∷ sismember redis_key_node_online id
            ∷ sismember redis_key_node_blacklist id
            ∷ [])
          db)
        (r.exec_reads
          (hgetall (redis_key_node id)
            ∷ sismember redis_key_node_online id
            ∷ sismember redis_key_node_blacklist id
            ∷ [])
          db (tt, (tt, (tt, tt))))

  -- When Redis answers, SwitchNodeByUser returns an error that says which node is missing or bound,
  -- or that a node could not be read, and succeeds otherwise.
  pub switch_node_by_user-outcome :
      (now : ℕ) (user : UserInfo) (to_id : Str) (db : r.Db)
      → (switch_node_by_user r now user to_id db).0
        ≡ switch_outcome user.route_node_id to_id
            (stored_node (r.view db) user.route_node_id)
            (stored_node (r.view db) to_id)
  unfolding switch_node_by_user
  switch_node_by_user-outcome now user to_id db =
      from_outcome now user to_id (get_node r user.route_node_id db).0
        (get_node r user.route_node_id db).1
      ∙ ap
          (λ x.
            switch_outcome user.route_node_id to_id x
              (stored_node (r.view (get_node r user.route_node_id db).1) to_id))
          (get_node_answers user.route_node_id db)
      ∙ ap
          (λ v.
            switch_outcome user.route_node_id to_id (stored_node (r.view db) user.route_node_id)
              (stored_node v to_id))
          (get_node_view user.route_node_id db)

  pub is_free-zadd :
      (v : View) (now : ℕ) (id : Str)
      → is_free (run v (zadd redis_key_node_free now id ∷ [])) id ≡ true
  unfolding is_free run apply
  is_free-zadd v now id = rw (str_eq_refl redis_key_node_free, str_eq_refl id) refl

  bound_to-zadd :
      (v : View) (now : ℕ) (id j : Str)
      → bound_to (run v (zadd redis_key_node_free now id ∷ [])) j ≡ bound_to v j
  unfolding bound_to run apply
  bound_to-zadd v now id j = refl

  refused_freed :
      (now : ℕ) (user : UserInfo) (n : NodeInfo) (b : Str) (db : r.Db)
      → n.online ≡ true
      → b ≢ []
      → let p =
          free_on_error r now n
            (continue (unbound r n.id n b) (λ free. send r (bind_commands now user free)) db) in
        (p.0 ≡ err (already_bound n.id b)) × (p.1 ≡ (add_free_node r now n.id db).1)
  unfolding unbound free_on_error
  refused_freed now user n [] db o d = absurd (d refl)
  refused_freed now user n (c ∷ cs) db o d = rw o (refl, refl)

  found_bound :
      (now : ℕ) (id : Str) (user : UserInfo) (x : Result Error (Option NodeInfo)) (n : NodeInfo)
      (db : r.Db)
      → x ≡ ok (some n)
      → (continue x (λ found. do node ← lift (existing r id found); bind_found r now user node) db)
        ≡ bind_found r now user n db
  unfolding existing
  found_bound now id user x n db e = rw e refl

  -- When Redis answers, BindNodeWithNewUser on an online node that has a user returns that it is
  -- bound and adds the node to the free ones, although it keeps its user.
  pub bind_node_with_new_user-frees_bound :
      (now : ℕ) (id : Str) (user : UserInfo) (db : r.Db) (n : NodeInfo)
      → stored_node (r.view db) id ≡ ok (some n)
      → n.online ≡ true
      → n.bind_user ≢ []
      → let after = r.view (bind_node_with_new_user r now id user db).1 in
        ((bind_node_with_new_user r now id user db).0 ≡ err (already_bound n.id n.bind_user))
        × (is_free after n.id ≡ true)
        × ((j : Str) → bound_to after j ≡ bound_to (r.view db) j)
  unfolding bind_node_with_new_user bind_found add_free_node
  bind_node_with_new_user-frees_bound now id user db n st o d =
      let db' = (get_node r id db).1 in
      let (e, s) = refused_freed now user n n.bind_user db' o d in
      let run_eq =
        found_bound now id user (get_node r id db).0 n db' (get_node_answers id db ∙ st) in
      let v =
        send-ok r (zadd redis_key_node_free now n.id ∷ []) db'
          (send_answers (zadd redis_key_node_free now n.id ∷ []) db') in
      (
        ap (λ p. p.0) run_eq ∙ e,
        ap (λ p. is_free (r.view p.1) n.id) run_eq
            ∙ ap (λ d. is_free (r.view d) n.id) s
            ∙ ap (λ w. is_free w n.id) v
            ∙ is_free-zadd (r.view db') now n.id,
        λ j.
            ap (λ p. bound_to (r.view p.1) j) run_eq
            ∙ ap (λ d. bound_to (r.view d) j) s
            ∙ ap (λ w. bound_to w j) v
            ∙ bound_to-zadd (r.view db') now n.id j
            ∙ ap (λ w. bound_to w j) (get_node_view id db),
      )
