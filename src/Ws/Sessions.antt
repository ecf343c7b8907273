-- ===== src/Ws/Sessions.antt =====
-- ippop/ws/tunmgr.go: the sessions of users in custom mode, each on a node of its own. A call holds
-- userSessionLock from its start to its end. `now` is time.Now() in nanoseconds.
pub mod Outcome
pub mod Recycle
use titan_ipoverlay.Prelude.{
  ℕ, suc, ◌+◌, ◌-◌, ◌%◌, ◌≡◌, Bool, true, false, ◌&&◌, ◌||◌, not, Option, none, some, List, [], ◌∷◌,
  ◌++◌, leb, ltb, ◌==◌, if◌then◌else◌,
}
use titan_ipoverlay.Prelude.Str.{Str, codes, str_eq}
use titan_ipoverlay.Prelude.Assoc.{Assoc, lookup, insert, remove}
use titan_ipoverlay.Prelude.Int.{ℤ, pos, negsuc, ◌+ℤ◌, ◌-ℤ◌, ltb_ℤ}
use titan_ipoverlay.Prelude.Exec.{Result, ok, err}
use titan_ipoverlay.Redis.{Redis}
use titan_ipoverlay.Model.{Error, UserInfo}
use titan_ipoverlay.Model.Bind.{allocate_free_node, add_free_node}

-- UserSession; a `disconnect_time` that was never set is `none`.
pub record Session : Type 0 where
  pub device_id : Str
  pub sess_time : ℤ
  pub assigned_time : ℕ
  pub connect_count : ℤ
  pub disconnect_time : Option ℕ

-- What the manager reads and writes of a Tunnel.
pub record Tunnel : Type 0 where
  pub id : Str
  pub user_session_id : Str
  pub download_rate_limit : ℤ
  pub upload_rate_limit : ℤ

-- TunnelManager: its tunnels by node id, and the sessions of each user by session id.
pub record Manager : Type 0 where
  pub tunnels : Assoc Tunnel
  pub user_sessions : Assoc (Assoc Session)

-- int32
unfoldable pub wrap32 : ℤ → ℤ
wrap32 (pos n) =
    let low = n % 4294967296 in if leb low 2147483647 then pos low else negsuc (4294967295 - low)
wrap32 (negsuc n) =
    let low = n % 4294967296 in if leb low 2147483647 then negsuc low else pos (4294967295 - low)

abbrev pub connected : Session → Session
connected s = record s { connect_count = wrap32 (s.connect_count +ℤ pos 1) }

-- A missing map of a user is empty.
abbrev pub sessions_of : Option (Assoc Session) → Assoc Session
sessions_of none = []
sessions_of (some m) = m

abbrev pub put_session : Str → Str → Session → Manager → Manager
put_session user id s m = record m {
  user_sessions =
      insert user (insert id s (sessions_of (lookup user m.user_sessions))) m.user_sessions;
}

pub data Failure : Type 0 where
  no_tunnel : Failure
  no_node : Error → Failure
  tunnel_not_found : Str → Failure

-- randomTunnel: `draw count` is rand.Intn(count) in the round `count`; the last tunnel with the
-- draw 0 is taken.
random_from : (ℕ → ℕ) → ℕ → Option Str → Assoc Tunnel → Option Str
random_from draw count found [] = found
random_from draw count found ((id, t) ∷ ts) =
    random_from draw (count + 1) (if draw (count + 1) == 0 then some id else found) ts

-- The node that a session gets, as it is stored from then on.
assigned : ℕ → ℤ → Str → Option Session → Session
assigned now sess_time id none = record {
  device_id = id;
  sess_time = sess_time;
  assigned_time = now;
  connect_count = wrap32 (pos 1);
  disconnect_time = none;
}
assigned now sess_time id (some s) = connected (record s { device_id = id; assigned_time = now })

lease : UserInfo → Str → Tunnel → Tunnel
lease user session_id t = record t {
  user_session_id = session_id;
  download_rate_limit = user.download_rate_limit;
  upload_rate_limit = user.upload_rate_limit;
}

module _ (r : Redis Error) where
  -- A node's tunnel, by its id, and whether the connection belongs to the session.
  abbrev pub Allocation : Type 0
  Allocation = Result Failure (Str × Bool) × (Manager × r.Db)

  random_allocation : Option Str → Manager × r.Db → Allocation
  random_allocation none w = (err no_tunnel, w)
  random_allocation (some id) w = (ok (id, false), w)

  leased : UserInfo → Str → Str → Option Tunnel → Manager × r.Db → Allocation
  unfolding lease
  leased user session_id id none w = (err (tunnel_not_found id), w)
  leased user session_id id (some t) (m, db) =
      (ok (id, true), (record m { tunnels = insert id (lease user session_id t) m.tunnels }, db))

  on_new_node :
      ℕ → UserInfo → Str → ℤ → Option Session → Manager → Result Error Str × r.Db → Allocation
  unfolding assigned leased
  on_new_node now user session_id sess_time old m (err e, db) = (err (no_node e), (m, db))
  on_new_node now user session_id sess_time old m (ok id, db) =
      let m' = put_session user.user_name session_id (assigned now sess_time id old) m in
      leased user session_id id (lookup id m'.tunnels) (m', db)

  -- A session whose tunnel is there is taken again; otherwise it gets a free node.
  again_or_new :
      ℕ → UserInfo → Str → ℤ → Option Session → Option Tunnel → Manager × r.Db → Allocation
  unfolding on_new_node
  again_or_new now user session_id sess_time (some s) (some t) (m, db) =
      (ok (s.device_id, true), (put_session user.user_name session_id (connected s) m, db))
  again_or_new now user session_id sess_time old _ (m, db) =
      on_new_node now user session_id sess_time old m (allocate_free_node r db)

  tunnel_of : Manager → Option Session → Option Tunnel
  tunnel_of m none = none
  tunnel_of m (some s) = lookup s.device_id m.tunnels

  -- The map of the user is made before the session is looked up.
  with_user_map : Str → Manager → Manager
  with_user_map user m = record m {
    user_sessions = insert user (sessions_of (lookup user m.user_sessions)) m.user_sessions;
  }

  unfoldable pub allocate_tunnel_by_user_session :
      (ℕ → ℕ) → ℕ → UserInfo → Str → ℤ → Manager × r.Db → Allocation
  unfolding random_from random_allocation again_or_new tunnel_of with_user_map
  allocate_tunnel_by_user_session draw now user [] sess_time (m, db) =
      random_allocation (random_from draw 0 none m.tunnels) (m, db)
  allocate_tunnel_by_user_session draw now user (c ∷ cs) sess_time (m, db) =
      let m' = with_user_map user.user_name m in
      let old = lookup (c ∷ cs) (sessions_of (lookup user.user_name m.user_sessions)) in
      again_or_new now user (c ∷ cs) sess_time old (tunnel_of m' old) (m', db)

-- handleUserSessionWhenSocks5TCPClose, on the session that the connection was allocated to.
unfoldable pub close_session : ℕ → Session → Session
close_session now s = record s {
  connect_count = wrap32 (s.connect_count -ℤ pos 1);
  disconnect_time = some now;
}

-- Since(disconnectTime) > 3 minutes; a time that was never set is long ago.
long_gone : ℕ → Option ℕ → Bool
long_gone now none = true
long_gone now (some t) = ltb (t + 180000000000) now

unfoldable pub is_expired : ℕ → Session → Bool
unfolding long_gone
is_expired now s = not (ltb_ℤ (pos 0) s.connect_count) && long_gone now s.disconnect_time

pub record ExpiredSession : Type 0 where
  pub username : Str
  pub session_id : Str
  pub device_id : Str
  pub is_lease_device : Bool

holds_session : Str → Option Tunnel → Bool
holds_session session_id none = false
holds_session session_id (some t) = str_eq t.user_session_id session_id

expired_of_user : ℕ → Manager → Str → Assoc Session → List ExpiredSession
unfolding holds_session
expired_of_user now m user [] = []
expired_of_user now m user ((id, s) ∷ ss) =
    let rest = expired_of_user now m user ss in
    if is_expired now s
    then record {
      username = user;
      session_id = id;
      device_id = s.device_id;
      is_lease_device = holds_session id (lookup s.device_id m.tunnels);
    }
      ∷ rest
    else rest

collect_from : ℕ → Manager → Assoc (Assoc Session) → List ExpiredSession
unfolding expired_of_user
collect_from now m [] = []
collect_from now m ((user, ss) ∷ us) = expired_of_user now m user ss ++ collect_from now m us

-- collectExpiredSessions; the order in which Go visits its maps is not fixed.
unfoldable pub collect_expired_sessions : ℕ → Manager → List ExpiredSession
unfolding collect_from
collect_expired_sessions now m = collect_from now m m.user_sessions

drop_session : Str → Assoc Session → Manager → Manager
drop_session user [] m = record m { user_sessions = remove user m.user_sessions }
drop_session user (s ∷ ss) m = record m { user_sessions = insert user (s ∷ ss) m.user_sessions }

-- removeSessions; `unix` is time.Now().Unix().
module _ (r : Redis Error) (unix : ℕ) where
  freed : Bool → Str → r.Db → r.Db
  freed true id db = (add_free_node r unix id db).1
  freed false id db = db

  unfoldable pub remove_sessions : List ExpiredSession → Manager × r.Db → Manager × r.Db
  unfolding drop_session freed
  remove_sessions [] w = w
  remove_sessions (e ∷ es) (m, db) = remove_sessions es (
    drop_session e.username (remove e.session_id (sessions_of (lookup e.username m.user_sessions)))
        m,
    freed e.is_lease_device e.device_id db,
  )
