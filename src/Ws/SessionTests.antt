-- ===== src/Ws/SessionTests.antt =====
-- Runs of the sessions and the switches of ippop/ws on concrete data.
use titan_ipoverlay.Prelude.{◌≡◌, refl, true, none, some, [], ◌∷◌, if◌then◌else◌}
use titan_ipoverlay.Prelude.Str.{Str, codes, str_eq, str_eq_refl}
use titan_ipoverlay.Prelude.Int.{ℤ, pos}
use titan_ipoverlay.Prelude.Exec.{ok, err}
use titan_ipoverlay.Prelude.Assoc.{Assoc, lookup, insert}
use titan_ipoverlay.Redis.{Redis}
use titan_ipoverlay.Model.{redis_key_node_free, Error, UserInfo}
use titan_ipoverlay.Model.OneFree.{start, pop_redis}
use titan_ipoverlay.Model.Bind.{allocate_free_node}
use titan_ipoverlay.Ws.Sessions.{
  Session, Tunnel, Manager, tunnel_not_found, sessions_of, remove_sessions,
  collect_expired_sessions, allocate_tunnel_by_user_session,
}
use titan_ipoverlay.Ws.Sessions.Outcome.{
  session_at, Allocated, Leaked, allocate_tunnel_by_user_session-Allocated,
  allocate_tunnel_by_user_session-leaks,
}
use titan_ipoverlay.Ws.Sessions.Recycle.{
  UniqueKeys, AllUnique, kept_at, remove_sessions-collect_expired_sessions,
}
use titan_ipoverlay.Ws.Switch.{switch_node_for_user}
use titan_ipoverlay.Ws.Switch.Effect.{Switched, switch_node_for_user-Switched}
use titan_ipoverlay.Ws.Samples.{test_user, test_cache}

-- The node n1 is stored and free, and n0 is stored with the user alice.
abbrev stored : Str → Assoc Str
stored k =
    if str_eq k (codes "titan:node:n0")
    then (codes "bind_user", codes "alice") ∷ []
    else if str_eq k (codes "titan:node:n1")
    then (codes "os", codes "linux") ∷ []
    else []

abbrev test_redis : Redis Error
test_redis = pop_redis stored

abbrev s1 : Str
s1 = codes "s1"

abbrev no_tunnels : Manager
no_tunnels = record { tunnels = []; user_sessions = [] }

abbrev n1_tunnel : Tunnel
n1_tunnel = record {
  id = codes "n1";
  user_session_id = [];
  download_rate_limit = pos 0;
  upload_rate_limit = pos 0;
}

abbrev one_tunnel : Manager
one_tunnel = record { tunnels = (codes "n1", n1_tunnel) ∷ []; user_sessions = [] }

popped_n1 : (allocate_free_node test_redis start).0 ≡ ok (codes "n1")
unfolding allocate_free_node
popped_n1 = rw (str_eq_refl redis_key_node_free) refl

no_session :
    (m : Assoc (Assoc Session)) → m ≡ [] → lookup s1 (sessions_of (lookup (codes "alice") m)) ≡ none
unfolding lookup
no_session m e = rw e refl

unknown_n1 : lookup {V = Tunnel} (codes "n1") [] ≡ none
unfolding lookup
unknown_n1 = refl

allocate_tunnel_by_user_session-leaks_example :
    let out =
      allocate_tunnel_by_user_session test_redis
        (λ n. 0)
        5
        test_user
        s1
        (pos 0)
        (no_tunnels, start) in
    (out.0 ≡ err (tunnel_not_found (codes "n1"))) × Leaked out.1.0 (codes "alice") s1 (codes "n1")
allocate_tunnel_by_user_session-leaks_example =
    allocate_tunnel_by_user_session-leaks test_redis (λ n. 0) 5 test_user 115 (49 ∷ []) (pos 0)
      no_tunnels start (codes "n1") (no_session [] refl) popped_n1 unknown_n1

allocated_n1 :
    (allocate_tunnel_by_user_session test_redis
      (λ n. 0)
      5
      test_user
      s1
      (pos 0)
      (one_tunnel, start)).0
    ≡ ok (codes "n1", true)
unfolding allocate_tunnel_by_user_session allocate_free_node lookup insert str_eq
    redis_key_node_free
allocated_n1 = refl

allocate_tunnel_by_user_session-Allocated_example :
    Allocated
      (allocate_tunnel_by_user_session test_redis
        (λ n. 0)
        5
        test_user
        s1
        (pos 0)
        (one_tunnel, start)).1.0
      (codes "alice")
      s1
      (session_at one_tunnel (codes "alice") s1)
      (codes "n1")
allocate_tunnel_by_user_session-Allocated_example =
    allocate_tunnel_by_user_session-Allocated test_redis (λ n. 0) 5 test_user 115 (49 ∷ []) (pos 0)
      one_tunnel start (codes "n1") allocated_n1

abbrev routed_user : UserInfo
routed_user = record test_user { route_node_id = codes "n0" }

switch_node_for_user-Switched_example :
    let out =
      switch_node_for_user test_redis test_cache 100 routed_user
        (some (codes "alice", routed_user), start) in
    Switched test_redis
      (λ cs d. refl)
      test_cache
      100
      routed_user
      (allocate_free_node test_redis start).1
      (codes "n1")
      out.0
      out.1
switch_node_for_user-Switched_example =
    switch_node_for_user-Switched test_redis (λ cs d. refl) test_cache 100 routed_user
      (some (codes "alice", routed_user)) start (codes "n1") popped_n1

abbrev session_on : Str → ℤ → Session
session_on id connections = record {
  device_id = id;
  sess_time = pos 0;
  assigned_time = 0;
  connect_count = connections;
  disconnect_time = some 1000;
}

-- One session with a connection and one that ended long ago.
abbrev two_sessions : Manager
two_sessions = record {
  tunnels = [];
  user_sessions =
      (
        codes "alice",
        (codes "s1", session_on (codes "n1") (pos 0))
            ∷ (codes "s2", session_on (codes "n2") (pos 1))
            ∷ [],
      )
      ∷ [];
}

two_sessions-UniqueKeys :
    UniqueKeys two_sessions.user_sessions × AllUnique two_sessions.user_sessions
unfolding lookup str_eq
two_sessions-UniqueKeys = ((refl, tt), ((refl, (refl, tt)), tt))

remove_sessions-collect_expired_sessions_example :
    session_at
      (remove_sessions test_redis 100
        (collect_expired_sessions 200000000000 two_sessions)
        (two_sessions, start)).0
      (codes "alice")
      s1
    ≡ kept_at 200000000000 (session_at two_sessions (codes "alice") s1)
remove_sessions-collect_expired_sessions_example =
    remove_sessions-collect_expired_sessions test_redis 200000000000 100 two_sessions start
      (codes "alice") s1 (two_sessions-UniqueKeys).0 (two_sessions-UniqueKeys).1
