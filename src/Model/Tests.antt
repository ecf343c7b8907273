-- ===== src/Model/Tests.antt =====
-- Runs of ippop/model on concrete data.
use titan_ipoverlay.Prelude.{◌≡◌, ◌≢◌, refl, true, ◌||◌, none, some, [], ◌∷◌, arith, if◌then◌else◌}
use titan_ipoverlay.Prelude.Str.{Str, codes, str_eq, str_eq_refl}
use titan_ipoverlay.Prelude.Int.{pos, negsuc}
use titan_ipoverlay.Prelude.Assoc.{Assoc, lookup}
use titan_ipoverlay.Prelude.Exec.{ok, err}
use titan_ipoverlay.Redis.{Redis, View}
use titan_ipoverlay.Model.OneFree.{start, pop_redis}
use titan_ipoverlay.Redis.Answering.{answering}
use titan_ipoverlay.StructMap.{text, flag, int, Struct, struct_to_map, map_to_struct, has_tag}
use titan_ipoverlay.StructMap.RoundTrip.{tagged, zeroed, map_to_struct-struct_to_map}
use titan_ipoverlay.Model.{
  Error, redis_failed, already_bound, NodeInfo, new_node, UserInfo, new_user, map_to_node,
  redis_key_node, redis_key_node_online, redis_key_node_free,
}
use titan_ipoverlay.Model.User.{save_user, get_user}
use titan_ipoverlay.Model.User.Saved.{get_user-save_user}
use titan_ipoverlay.Model.User.Stored.{InRange}
use titan_ipoverlay.Model.Node.{node_of, decoded}
use titan_ipoverlay.Model.Bind.{allocate_free_node, bind_node_with_new_user, switch_node_by_user}
use titan_ipoverlay.Model.Bind.Views.{bound_to, is_free, is_online}
use titan_ipoverlay.Model.Bind.Runs.{stored_node}
use titan_ipoverlay.Model.Bind.FreeList.{FreeInv}
use titan_ipoverlay.Model.Bind.Reach.{
  Step, here, next, Step-FreeInv, Reach-FreeInv, Moved, switch_node_by_user-Moved,
}
use titan_ipoverlay.Model.Bind.Outcomes.{
  Reliable, switch_outcome, switch_node_by_user-outcome, bind_node_with_new_user-frees_bound,
}

abbrev test_redis : Redis Error
test_redis = answering Error redis_failed

test_redis-Reliable : Reliable test_redis
test_redis-Reliable cs v = refl

abbrev test_user : UserInfo
test_user = record new_user {
  user_name = codes "alice";
  end_time = pos 1900000000;
  total_traffic = pos 1048576;
  route_node_id = codes "n1";
  off = true;
}

test_user-InRange : InRange test_user
test_user-InRange = record {
  start_time = omega arith;
  end_time = omega arith;
  total_traffic = omega arith;
  current_traffic = omega arith;
  top_bandwidth = omega arith;
  route_mode = omega arith;
  update_route_interval_minutes = omega arith;
  update_route_utc_minute_of_day = omega arith;
  last_route_switch_time = omega arith;
  upload_rate_limit = omega arith;
  download_rate_limit = omega arith;
}

abbrev test_struct : Struct
test_struct =
    record { name = codes "A"; tag = codes "a"; value = text (codes "x") }
    ∷ record { name = codes "B"; tag = codes "b"; value = flag true }
    ∷ record { name = codes "C"; tag = codes "c"; value = int (negsuc 4) }
    ∷ []

test_struct-tagged : tagged test_struct ≡ true
unfolding tagged str_eq has_tag
test_struct-tagged = refl

map_to_struct-struct_to_map_example :
    map_to_struct (struct_to_map test_struct) (zeroed test_struct) ≡ some test_struct
map_to_struct-struct_to_map_example =
    map_to_struct-struct_to_map test_struct test_struct-tagged (omega arith)

-- Two nodes that are online, n1 with a user.
abbrev node_hash : Str → Assoc Str
node_hash k =
    if str_eq k (codes "titan:node:n1")
    then (codes "bind_user", codes "alice") ∷ []
    else if str_eq k (codes "titan:node:n2")
    then (codes "os", codes "linux") ∷ []
    else []

abbrev test_view : View
test_view = record {
  hash = λ k. node_hash k;
  zset = λ k m. none;
  members = λ k m. str_eq m (codes "n1") || str_eq m (codes "n2");
}

abbrev n1 : NodeInfo
n1 = record new_node {
  id = codes "n1";
  bind_user = codes "alice";
  online = true;
  is_blacklisted = true;
}

abbrev n2 : NodeInfo
n2 = record new_node { id = codes "n2"; os = codes "linux"; online = true; is_blacklisted = true }

n1_stored : stored_node test_view (codes "n1") ≡ ok (some n1)
unfolding node_of decoded map_to_node map_to_struct lookup str_eq has_tag is_online redis_key_node
    redis_key_node_online
n1_stored = refl

n2_stored : stored_node test_view (codes "n2") ≡ ok (some n2)
unfolding node_of decoded map_to_node map_to_struct lookup str_eq has_tag is_online redis_key_node
    redis_key_node_online
n2_stored = refl

abbrev after_switch : View
after_switch = (switch_node_by_user test_redis 100 test_user (codes "n2") test_view).1

switch_node_by_user-outcome_example :
    (switch_node_by_user test_redis 100 test_user (codes "n2") test_view).0
    ≡ switch_outcome
        (codes "n1")
        (codes "n2")
        (stored_node test_view (codes "n1"))
        (stored_node test_view (codes "n2"))
switch_node_by_user-outcome_example =
    switch_node_by_user-outcome test_redis test_redis-Reliable 100 test_user (codes "n2") test_view

switched : (switch_node_by_user test_redis 100 test_user (codes "n2") test_view).0 ≡ ok tt
switched =
    rw
      (
        switch_node_by_user-outcome test_redis test_redis-Reliable 100 test_user (codes "n2")
            test_view,
        n1_stored,
        n2_stored,
      )
      refl

other_node : ◌≢◌ {A = Str} (codes "n1") (codes "n2")
other_node e = ground arith

switch_node_by_user-Moved_example :
    Moved test_view after_switch (codes "alice") (codes "n1") (codes "n2")
switch_node_by_user-Moved_example =
    switch_node_by_user-Moved test_redis 100 test_user (codes "n2") test_view switched other_node

bind_node_with_new_user-frees_bound_example :
    let after = (bind_node_with_new_user test_redis 100 (codes "n1") test_user test_view).1 in
    ((bind_node_with_new_user test_redis 100 (codes "n1") test_user test_view).0
      ≡ err (already_bound (codes "n1") (codes "alice")))
    × (is_free after (codes "n1") ≡ true)
    × ((j : Str) → bound_to after j ≡ bound_to test_view j)
bind_node_with_new_user-frees_bound_example =
    bind_node_with_new_user-frees_bound test_redis test_redis-Reliable 100 (codes "n1") test_user
      test_view n1 n1_stored refl (λ e. ground arith)

test_view-FreeInv : FreeInv test_view
unfolding FreeInv is_free
test_view-FreeInv j f = cc

Step-FreeInv_example : FreeInv after_switch
Step-FreeInv_example =
    Step-FreeInv test_redis (Step.switch 100 test_user (codes "n2") test_view switched)
      test_view-FreeInv

Reach-FreeInv_example : FreeInv after_switch
Reach-FreeInv_example =
    Reach-FreeInv test_redis test_view-FreeInv
      (next test_view after_switch here (Step.switch 100 test_user (codes "n2") test_view switched))

allocated : (allocate_free_node (pop_redis node_hash) start).0 ≡ ok (codes "n1")
unfolding allocate_free_node
allocated = rw (str_eq_refl redis_key_node_free) refl

get_user-save_user_example :
    (get_user test_redis (codes "alice") (save_user test_redis test_user test_view).1).0
    ≡ ok (some test_user)
get_user-save_user_example =
    get_user-save_user test_redis test_redis-Reliable test_user test_view test_user-InRange
