-- ===== src/Model/Bind/Runs.antt =====
-- The calls of bind.go that succeed, as the pipeline that each of them ends with.
use titan_ipoverlay.Prelude.{
  ℕ, ◌≡◌, refl, sym, ap, ◌∙◌, Bool, Option, none, some, List, [], ◌∷◌, arith,
}
use titan_ipoverlay.Prelude.Str.{Str}
use titan_ipoverlay.Prelude.Assoc.{Assoc}
use titan_ipoverlay.Prelude.Exec.{Result, ok, err, Exec, lift, pure, bind-eq-ok, ◌>>=◌}
use titan_ipoverlay.Redis.{Redis, View, Cmd, run, replies, reply, apply, hgetall, sismember}
use titan_ipoverlay.Model.{
  Error, NodeInfo, UserInfo, map_to_node, redis_key_node, redis_key_node_online,
  redis_key_node_blacklist,
}
use titan_ipoverlay.Model.Node.{
  send, get_node, node_of, decoded, node_of_replies, online_commands, go_online, handle_node_online,
}
use titan_ipoverlay.Model.Bind.{
  existing, unbound, free_on_error, bind_found, bind_node_with_new_user, unbind_node,
  switch_node_by_user,
}
use titan_ipoverlay.Model.Bind.Commands.{bind_commands, unbind_commands, switch_commands}
use titan_ipoverlay.Model.Bind.Views.{is_online}

-- The node that is stored under an id.
abbrev pub stored_node : View → Str → Result Error (Option NodeInfo)
stored_node v id =
    node_of id (v.hash (redis_key_node id)) (is_online v id) (v.members redis_key_node_blacklist id)

decoded-some :
    (id : Str) (online black : Bool) (o : Option NodeInfo) {n : NodeInfo}
    → decoded id online black o ≡ ok (some n)
    → (n.id ≡ id) × (n.online ≡ online)
unfolding decoded
decoded-some id online black none h = cc
decoded-some id online black (some m) h = (cc, cc)

pub node_of-some :
    (id : Str) (m : Assoc Str) (online black : Bool) {n : NodeInfo}
    → node_of id m online black ≡ ok (some n)
    → (n.id ≡ id) × (n.online ≡ online)
unfolding node_of
node_of-some id [] online black h = cc
node_of-some id (f ∷ m) online black h = decoded-some id online black (map_to_node (f ∷ m)) h

module _ (r : Redis Error) where
  pub send-ok :
      (cs : List Cmd) (db : r.Db)
      → (send r cs db).0 ≡ ok tt
      → r.view (send r cs db).1 ≡ run (r.view db) cs
  send-ok cs db h =
      let (rs, e, _, s) = bind-eq-ok (r.exec cs) (λ _. pure tt) db h in
      ap r.view s ∙ r.exec_effect cs db e

  pub get_node-ok :
      (id : Str) (db : r.Db) {o : Option NodeInfo}
      → (get_node r id db).0 ≡ ok o
      → (stored_node (r.view db) id ≡ ok o) × (r.view (get_node r id db).1 ≡ r.view db)
  unfolding get_node replies reply apply node_of_replies is_online
  get_node-ok id db h =
      let cs =
        hgetall (redis_key_node id)
        ∷ sismember redis_key_node_online id
        ∷ sismember redis_key_node_blacklist id
        ∷ [] in
      let (rs, e, k, s) = bind-eq-ok (r.exec cs) (λ rs. lift (node_of_replies id rs)) db h in
      (
        sym (ap (node_of_replies id) (r.exec_replies cs db e)) ∙ k,
        ap r.view s ∙ r.exec_reads cs db (tt, (tt, (tt, tt))),
      )

  existing_ok :
      (id : Str) (o : Option NodeInfo) {n : NodeInfo} → existing r id o ≡ ok n → o ≡ some n
  unfolding existing
  existing_ok id none h = cc
  existing_ok id (some m) h = cc

  unbound_ok :
      (id : Str) (n : NodeInfo) (bind_user : Str) {m : NodeInfo}
      → unbound r id n bind_user ≡ ok m
      → (bind_user ≡ []) × (m ≡ n)
  unfolding unbound
  unbound_ok id n [] h = (refl, cc)
  unbound_ok id n (c ∷ cs) h = cc

  -- GetNode and the test that it gave a node.
  pub found-ok :
      (id : Str) (f : NodeInfo → Exec Error r.Db (Unit {0})) (db : r.Db)
      → ((do found ← get_node r id; node ← lift (existing r id found); f node) db).0 ≡ ok tt
      → (n : NodeInfo) × (stored_node (r.view db) id ≡ ok (some n))
        × (db' : r.Db) × (r.view db' ≡ r.view db)
        × ((f n db').0 ≡ ok tt)
        × (((do found ← get_node r id; node ← lift (existing r id found); f node) db).1
            ≡ (f n db').1)
  found-ok id f db h =
      let (o, e, k, s) =
        bind-eq-ok (get_node r id) (λ found. do node ← lift (existing r id found); f node) db h in
      let (n, e', k', s') = bind-eq-ok (lift (existing r id o)) f (get_node r id db).1 k in
      let (st, w) = get_node-ok id db e in
      (n, rw (sym (existing_ok id o e')) st, (get_node r id db).1, w, k', s ∙ s')

  pub unbind_node-ok :
      (now : ℕ) (id : Str) (db : r.Db)
      → (unbind_node r now id db).0 ≡ ok tt
      → (n : NodeInfo) × (stored_node (r.view db) id ≡ ok (some n))
        × (r.view (unbind_node r now id db).1 ≡ run (r.view db) (unbind_commands now n))
  unfolding unbind_node
  unbind_node-ok now id db h =
      let (n, st, db', w, k, s) = found-ok id (λ n. send r (unbind_commands now n)) db h in
      (
        n,
        st,
        ap r.view s
            ∙ send-ok (unbind_commands now n) db' k
            ∙ ap (λ v. run v (unbind_commands now n)) w,
      )

  pub switch_node_by_user-ok :
      (now : ℕ) (user : UserInfo) (to_id : Str) (db : r.Db)
      → (switch_node_by_user r now user to_id db).0 ≡ ok tt
      → (from_node : NodeInfo) × (to_node : NodeInfo) × (stored_node (r.view db) user.route_node_id
          ≡ ok (some from_node))
        × (stored_node (r.view db) to_id ≡ ok (some to_node))
        × (to_node.bind_user ≡ [])
        × (r.view (switch_node_by_user r now user to_id db).1
            ≡ run (r.view db) (switch_commands now user from_node to_node))
  unfolding switch_node_by_user
  switch_node_by_user-ok now user to_id db h =
      let tail = (λ (from_node : NodeInfo) (to_any : NodeInfo). do
        to_node ← lift (unbound r to_id to_any to_any.bind_user)
        send r (switch_commands now user from_node to_node)) in
      let (from_node, st, db', w, k, s) =
        found-ok user.route_node_id
          (λ from_node. do
            to_found ← get_node r to_id
            to_any ← lift (existing r to_id to_found)
            tail from_node to_any)
          db h in
      let (to_any, st', db'', w', k', s') = found-ok to_id (tail from_node) db' k in
      let (to_node, e, k'', s'') =
        bind-eq-ok (lift (unbound r to_id to_any to_any.bind_user))
          (λ n. send r (switch_commands now user from_node n)) db'' k' in
      let (b, m) = unbound_ok to_id to_any to_any.bind_user e in
      (
        from_node,
        to_node,
        st,
        rw m (ap (λ v. stored_node v to_id) (sym w) ∙ st'),
        rw m b,
        ap r.view (s ∙ s' ∙ s'')
            ∙ send-ok (switch_commands now user from_node to_node) db'' k''
            ∙ ap (λ v. run v (switch_commands now user from_node to_node)) (w' ∙ w),
      )

  free_on_error_ok :
      (now : ℕ) (n : NodeInfo) (p : Result Error (Unit {0}) × r.Db)
      → (free_on_error r now n p).0 ≡ ok tt
      → (p.0 ≡ ok tt) × ((free_on_error r now n p).1 ≡ p.1)
  unfolding free_on_error
  free_on_error_ok now n (ok t, db) h = (h, refl)
  free_on_error_ok now n (err e, db) h = ground arith

  pub bind_node_with_new_user-ok :
      (now : ℕ) (id : Str) (user : UserInfo) (db : r.Db)
      → (bind_node_with_new_user r now id user db).0 ≡ ok tt
      → (n : NodeInfo) × (stored_node (r.view db) id ≡ ok (some n))
        × (n.bind_user ≡ [])
        × (r.view (bind_node_with_new_user r now id user db).1
            ≡ run (r.view db) (bind_commands now user n))
  unfolding bind_node_with_new_user bind_found
  bind_node_with_new_user-ok now id user db h =
      let (n, st, db', w, k, s) = found-ok id (bind_found r now user) db h in
      let attempt = (do
        free ← lift (unbound r n.id n n.bind_user)
        send r (bind_commands now user free)) in
      let (k', s') = free_on_error_ok now n (attempt db') k in
      let (free, e, k'', s'') =
        bind-eq-ok (lift (unbound r n.id n n.bind_user))
          (λ free. send r (bind_commands now user free)) db' k' in
      let (b, m) = unbound_ok n.id n n.bind_user e in
      (
        n,
        st,
        b,
        ap r.view (s ∙ s' ∙ s'')
            ∙ send-ok (bind_commands now user free) db' k''
            ∙ ap (λ v. run v (bind_commands now user free)) w
            ∙ ap (λ x. run (r.view db) (bind_commands now user x)) m,
      )

  pub handle_node_online-ok :
      (now : ℕ) (parse_time : Str → Option ℕ) (n : NodeInfo) (db : r.Db)
      → (handle_node_online r now parse_time n db).0 ≡ ok tt
      → (registered : ℕ) × (r.view (handle_node_online r now parse_time n db).1
          ≡ run (r.view db) (online_commands now registered n))
  unfolding handle_node_online go_online
  handle_node_online-ok now parse_time n db h = go (parse_time n.register_at) h
    where
      go :
          (t : Option ℕ)
          → (go_online r now parse_time n t db).0 ≡ ok tt
          → (registered : ℕ) × (r.view (go_online r now parse_time n t db).1
              ≡ run (r.view db) (online_commands now registered n))
      go none h = cc
      go (some registered) h = (registered, send-ok (online_commands now registered n) db h)
