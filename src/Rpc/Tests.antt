-- ===== src/Rpc/Tests.antt =====
-- Runs of ippop/rpc/internal/logic on concrete data.
use titan_ipoverlay.Ws.Samples.{test_cache}
use titan_ipoverlay.Prelude.{◌≡◌, refl, arith, true, none, some, [], ◌∷◌, if◌then◌else◌}
use titan_ipoverlay.Prelude.Str.{Str, codes, str_eq}
use titan_ipoverlay.Prelude.Int.{pos}
use titan_ipoverlay.Prelude.Assoc.{Assoc, lookup}
use titan_ipoverlay.Prelude.Exec.{ok, err}
use titan_ipoverlay.Redis.{Redis, View, replies, run, reply, apply}
use titan_ipoverlay.Model.User.{get_user, user_of, delete_user as remove_user}
use titan_ipoverlay.Redis.Answering.{answering}
use titan_ipoverlay.Model
use titan_ipoverlay.Model.{
  redis_failed, UserInfo, redis_key_user, redis_key_node, redis_key_node_online,
  redis_key_node_blacklist, map_to_node, map_to_user,
}
use titan_ipoverlay.StructMap.{map_to_struct}
use titan_ipoverlay.Model.Node.{get_node, node_of_replies, node_of, decoded}
use titan_ipoverlay.Model.Bind.{
  bind_node_with_new_user, existing, unbound, switch_node_by_user, unbind_node,
}
use titan_ipoverlay.Model.Bind.Commands.{bind_commands, unbind_commands}
use titan_ipoverlay.Model.Bind.Views.{is_free}
use titan_ipoverlay.Model.Bind.Outcomes.{Reliable}
use titan_ipoverlay.Socks5.Username.{named, parse_username}
use titan_ipoverlay.Rpc.{
  on_db, delete_cache, as_rpc, node_unused, check_route, is_mode, is_invalid_route_mode, failed,
  panicked, CreateUserReq, CreateUserResp, TrafficLimit, Service, manual_mode, check_traffic,
}
use titan_ipoverlay.Rpc.Create.{
  create_user, contains_dash, check_name, absent, has_node_id, node_found, new_user,
  default_traffic_limit, default_total_traffic,
}
use titan_ipoverlay.Rpc.Create.SignIn.{create_user-signs_in}
use titan_ipoverlay.Model.User.Stored.{InRange}
use titan_ipoverlay.Ws.SignIn.{handle_user_auth, delete_user_from_cache}
use titan_ipoverlay.Rpc.Create.Described.{Described}
use titan_ipoverlay.Rpc.Change.{
  modify_user, switch_user_route_node, delete_user, user_found, check_node,
}
use titan_ipoverlay.Rpc.Change.Failures.{modify_user-without_route, switch_user_route_node-frees}
use titan_ipoverlay.Rpc.Change.Deleted.{Gone, Freed, delete_user-Gone}

abbrev test_redis : Redis Model.Error
test_redis = answering Model.Error redis_failed

test_redis-Reliable : Reliable test_redis
test_redis-Reliable cs v = refl

-- The user alice, routed to the node n1, and the node n2, both online.
abbrev hashes : Str → Assoc Str
hashes k =
    if str_eq k (codes "titan:node:n1")
    then (codes "bind_user", codes "alice") ∷ []
    else if str_eq k (codes "titan:node:n2")
    then (codes "os", codes "linux") ∷ []
    else if str_eq k (codes "titan:user:alice")
    then (codes "user_name", codes "alice") ∷ (codes "route_node_id", codes "n1") ∷ []
    else []

abbrev test_view : View
test_view = record {
  hash = λ k. hashes k;
  zset = λ k m. none;
  members = λ k m. str_eq k (codes "titan:node:online");
}

abbrev at_start : Service test_redis
at_start = record { db = test_view; dropped = [] }

abbrev plain_md5 : Str → Str
plain_md5 s = s

abbrev bob : CreateUserReq
bob = record {
  user_name = codes "bob";
  password = codes "secret";
  route = some (record {
    mode = manual_mode;
    node_id = codes "n2";
    interval_minutes = pos 0;
    utc_minute_of_day = pos 0;
  });
  traffic_limit = none;
  upload_rate_limit = pos 0;
  download_rate_limit = pos 0;
}

abbrev bob_reply : CreateUserResp
bob_reply = record {
  user_name = codes "bob";
  traffic_limit = record {
    start_time = pos 100;
    end_time = pos 200;
    total_traffic = default_total_traffic;
  };
  route = record {
    mode = manual_mode;
    node_id = codes "n2";
    interval_minutes = pos 0;
    utc_minute_of_day = pos 0;
  };
  node_ip = [];
}

bob_created : (create_user test_redis plain_md5 100 200 bob at_start).0 ≡ ok bob_reply
unfolding create_user on_db get_user replies reply apply user_of str_eq redis_key_user
    redis_key_node redis_key_node_online redis_key_node_blacklist contains_dash check_name absent
    check_route is_invalid_route_mode is_mode get_node node_of_replies node_of decoded map_to_node
    map_to_struct node_unused has_node_id node_found bind_node_with_new_user existing unbound
    bind_commands run as_rpc new_user lookup default_traffic_limit
bob_created = refl

abbrev bob_user : UserInfo
bob_user = new_user test_redis plain_md5 100 200 bob bob_reply.traffic_limit bob_reply.route

bob_user-InRange : InRange bob_user
unfolding new_user
bob_user-InRange = record {
  start_time = omega arith;
  end_time = omega arith;
  total_traffic = omega arith;
  current_traffic = omega arith;
  top_bandwidth = omega arith;
  route_mode = omega arith;
  update_route_interval_minutes = omega arith;
  update_route_utc_minute_of_day = omega arith;
  last_route_switch_time = omega arith;
  upload_rate_limit = omega arith;
  download_rate_limit = omega arith;
}

create_user-signs_in_example :
    (parse_username (codes "bob") ≡ ok (named (codes "bob")))
    × ((handle_user_auth test_redis test_cache plain_md5 (pos 150) (codes "bob") (codes "secret") (
          delete_user_from_cache test_redis test_cache
            (codes "bob")
            (none, (create_user test_redis plain_md5 100 200 bob at_start).1.db))).0
        ≡ ok tt)
unfolding is_mode
create_user-signs_in_example =
    create_user-signs_in test_redis test_redis-Reliable test_cache plain_md5 100 200 bob at_start
      none (pos 150) {resp = bob_reply} refl bob_user-InRange bob_created (omega arith)
      (omega arith)

abbrev a_limit : TrafficLimit
a_limit = record { start_time = pos 0; end_time = pos 300; total_traffic = pos 1024 }

abbrev alice : UserInfo
alice = record Model.new_user { user_name = codes "alice"; route_node_id = codes "n1" }

alice_found : (on_db test_redis (get_user test_redis (codes "alice")) at_start).0 ≡ ok (some alice)
unfolding on_db get_user replies reply apply user_of str_eq redis_key_user as_rpc map_to_user
    map_to_struct lookup
alice_found = refl

modify_user-without_route_example :
    modify_user test_redis 100
      (record { user_name = codes "alice"; route = none; traffic_limit = some a_limit })
      at_start
    ≡ (err panicked, (on_db test_redis (get_user test_redis (codes "alice")) at_start).1)
unfolding check_traffic
modify_user-without_route_example =
    modify_user-without_route test_redis 100 (codes "alice") a_limit at_start alice refl alice_found

delete_user_runs : (delete_user test_redis 100 (codes "alice") at_start).0 ≡ ok tt
unfolding delete_user on_db get_user replies reply apply user_of str_eq redis_key_user as_rpc
    map_to_user map_to_struct user_found remove_user is_mode unbind_node get_node node_of_replies
    node_of decoded map_to_node redis_key_node redis_key_node_online redis_key_node_blacklist
    existing unbind_commands run delete_cache lookup
delete_user_runs = refl

delete_user-Gone_example :
    let t = (delete_user test_redis 100 (codes "alice") at_start).1 in
    (u : UserInfo) × ((on_db test_redis (get_user test_redis (codes "alice")) at_start).0
      ≡ ok (some u))
    × Gone t.db (codes "alice")
    × Freed test_redis (codes "alice") u.route_node_id t
delete_user-Gone_example = delete_user-Gone test_redis (codes "alice") 100 at_start delete_user_runs

-- A user that is routed to no node cannot be moved.
abbrev carol : UserInfo
carol = record Model.new_user { user_name = codes "carol" }

abbrev with_carol : Service test_redis
with_carol = record {
  db = record test_view {
    hash = λ k.
        if str_eq k (codes "titan:user:carol")
        then (codes "user_name", codes "carol") ∷ []
        else hashes k;
    members = λ k m. str_eq m (codes "n2");
  };
  dropped = [];
}

carol_found :
    (on_db test_redis (get_user test_redis (codes "carol")) with_carol).0 ≡ ok (some carol)
unfolding on_db get_user replies reply apply user_of str_eq redis_key_user as_rpc map_to_user
    map_to_struct lookup
carol_found = refl

n2_checked :
    (check_node test_redis
      (codes "n2")
      (on_db test_redis (get_user test_redis (codes "carol")) with_carol).1).0
    ≡ ok tt
unfolding on_db get_user replies reply apply user_of str_eq redis_key_user as_rpc map_to_user
    map_to_struct check_node node_unused get_node node_of_replies node_of decoded map_to_node
    redis_key_node redis_key_node_online redis_key_node_blacklist lookup run
n2_checked = refl

not_moved :
    (switch_node_by_user test_redis 100 carol
      (codes "n2")
      (check_node test_redis
        (codes "n2")
        (on_db test_redis (get_user test_redis (codes "carol")) with_carol).1).1.db).0
    ≡ err (Model.node_not_exist [])
unfolding on_db get_user replies reply apply user_of str_eq redis_key_user as_rpc map_to_user
    map_to_struct check_node node_unused get_node node_of_replies node_of decoded map_to_node
    redis_key_node redis_key_node_online redis_key_node_blacklist lookup run switch_node_by_user
    existing
not_moved = refl

switch_user_route_node-frees_example :
    ((switch_user_route_node test_redis 100 (codes "carol") (codes "n2") with_carol).0
      ≡ err (failed (Model.node_not_exist [])))
    × (is_free
          (switch_user_route_node test_redis 100 (codes "carol") (codes "n2") with_carol).1.db
          (codes "n2")
        ≡ true)
switch_user_route_node-frees_example =
    switch_user_route_node-frees test_redis 100 (codes "carol") _ _ with_carol carol
      (Model.node_not_exist []) test_redis-Reliable carol_found n2_checked not_moved
