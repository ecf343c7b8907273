-- ===== src/Ws/Sessions/Outcome.antt =====
-- What an allocation leaves for the session that it is for.
use titan_ipoverlay.Prelude.{ℕ, ◌≡◌, refl, sym, ◌∙◌, true, false, Option, none, some, ◌∷◌}
use titan_ipoverlay.Prelude.Str.{Str, str_eq_refl}
use titan_ipoverlay.Prelude.Assoc.{lookup, insert, lookup-insert}
use titan_ipoverlay.Prelude.Int.{ℤ, pos, ◌+ℤ◌}
use titan_ipoverlay.Prelude.Exec.{Result, ok, err}
use titan_ipoverlay.Redis.{Redis}
use titan_ipoverlay.Model.{Error, UserInfo}
use titan_ipoverlay.Model.Bind.{allocate_free_node}
use titan_ipoverlay.Ws.Sessions.{
  Session, Tunnel, Manager, tunnel_not_found, wrap32, connected, sessions_of, put_session, assigned,
  lease, leased, on_new_node, again_or_new, tunnel_of, with_user_map,
  allocate_tunnel_by_user_session, is_expired,
}

abbrev pub session_at : Manager → Str → Str → Option Session
session_at m user id = lookup id (sessions_of (lookup user m.user_sessions))

session_at-put_session :
    (user id : Str) (s : Session) (m : Manager)
    → session_at (put_session user id s m) user id ≡ some s
session_at-put_session user id s m =
    rw
      (lookup-insert user user (insert id s (sessions_of (lookup user m.user_sessions)))
        m.user_sessions)
      (rw (str_eq_refl user) (
        rw (lookup-insert id id s (sessions_of (lookup user m.user_sessions)))
          (rw (str_eq_refl id) refl)))

session_at-with_user_map :
    (r : Redis Error) (user id : Str) (m : Manager)
    → session_at (with_user_map r user m) user id ≡ session_at m user id
unfolding with_user_map
session_at-with_user_map r user id m =
    rw (lookup-insert user user (sessions_of (lookup user m.user_sessions)) m.user_sessions)
      (rw (str_eq_refl user) refl)

-- The connections that are counted before the allocation.
abbrev pub count_of : Option Session → ℤ
count_of none = pos 0
count_of (some s) = s.connect_count

-- The session has one more connection, and its node has a tunnel.
abbrev pub Allocated : Manager → Str → Str → Option Session → Str → Type 0
Allocated m user session_id old id =
    (s : Session) × (t : Tunnel) × (session_at m user session_id ≡ some s)
    × (s.device_id ≡ id)
    × (lookup id m.tunnels ≡ some t)
    × (s.connect_count ≡ wrap32 (count_of old +ℤ pos 1))

-- A session with one connection that is counted, and that is never found expired.
abbrev pub Leaked : Manager → Str → Str → Str → Type 0
Leaked m user session_id id =
    (s : Session) × (session_at m user session_id ≡ some s)
    × (s.device_id ≡ id)
    × (s.connect_count ≡ pos 1)
    × ((later : ℕ) → is_expired later s ≡ false)

assigned_device :
    (now : ℕ) (sess_time : ℤ) (id : Str) (old : Option Session)
    → ((assigned now sess_time id old).device_id ≡ id)
      × ((assigned now sess_time id old).connect_count ≡ wrap32 (count_of old +ℤ pos 1))
unfolding assigned ◌+ℤ◌
assigned_device now sess_time id none = (refl, refl)
assigned_device now sess_time id (some s) = (refl, refl)

module _ (r : Redis Error) (now : ℕ) (user : UserInfo) (session_id : Str) (sess_time : ℤ) where
  leased-Allocated :
      (i : Str) (o : Option Tunnel) (old : Option Session) (m : Manager) (db : r.Db) {id : Str}
      → let m' = put_session user.user_name session_id (assigned now sess_time i old) m in
        (leased r user session_id i o (m', db)).0 ≡ ok (id, true)
        → Allocated (leased r user session_id i o (m', db)).1.0 user.user_name session_id old id
  unfolding leased
  leased-Allocated i none old m db h = cc
  leased-Allocated i (some t) old m db {id = id} h =
      let same : i ≡ id = cc in
      let (d, c) = assigned_device now sess_time i old in
      (
        assigned now sess_time i old,
        lease user session_id t,
        session_at-put_session user.user_name session_id (assigned now sess_time i old) m,
        d ∙ same,
        rw (sym same)
            (rw (lookup-insert i i (lease user session_id t) m.tunnels) (rw (str_eq_refl i) refl)),
        c,
      )

  on_new_node-Allocated :
      (old : Option Session) (m : Manager) (p : Result Error Str × r.Db) {id : Str}
      → (on_new_node r now user session_id sess_time old m p).0 ≡ ok (id, true)
      → Allocated
          (on_new_node r now user session_id sess_time old m p).1.0
          user.user_name
          session_id
          old
          id
  unfolding on_new_node
  on_new_node-Allocated old m (err e, db) h = cc
  on_new_node-Allocated old m (ok i, db) h = leased-Allocated i (lookup i m.tunnels) old m db h

  again_or_new-Allocated :
      (old : Option Session) (o : Option Tunnel) (m : Manager) (db : r.Db) {id : Str}
      → tunnel_of r m old ≡ o
      → (again_or_new r now user session_id sess_time old o (m, db)).0 ≡ ok (id, true)
      → Allocated
          (again_or_new r now user session_id sess_time old o (m, db)).1.0
          user.user_name
          session_id
          old
          id
  unfolding again_or_new tunnel_of
  again_or_new-Allocated none none m db e h =
      on_new_node-Allocated none m (allocate_free_node r db) h
  again_or_new-Allocated none (some t) m db e h =
      on_new_node-Allocated none m (allocate_free_node r db) h
  again_or_new-Allocated (some s) none m db e h =
      on_new_node-Allocated (some s) m (allocate_free_node r db) h
  again_or_new-Allocated (some s) (some t) m db {id = id} e h =
      let same : s.device_id ≡ id = cc in
      (
        connected s,
        t,
        session_at-put_session user.user_name session_id (connected s) m,
        same,
        rw (sym same) e,
        refl,
      )

  on_new_node-Leaked :
      (m : Manager) (p : Result Error Str × r.Db) (id : Str)
      → p.0 ≡ ok id
      → lookup id m.tunnels ≡ none
      → ((on_new_node r now user session_id sess_time none m p).0 ≡ err (tunnel_not_found id))
        × Leaked
            (on_new_node r now user session_id sess_time none m p).1.0
            user.user_name
            session_id
            id
  unfolding on_new_node assigned leased is_expired wrap32
  on_new_node-Leaked m (err e, db) id h none_there = cc
  on_new_node-Leaked m (ok i, db) id h none_there =
      let same : id ≡ i = cc in
      let unknown : lookup i m.tunnels ≡ none = rw same at none_there in
      let s : Session = assigned now sess_time i none in
      rw (same, unknown)
        (refl, (s, session_at-put_session user.user_name session_id s m, refl, refl, λ later. refl))

module _ (r : Redis Error) (draw : ℕ → ℕ) (now : ℕ) (user : UserInfo) (c : ℕ) (cs : Str)
    (sess_time : ℤ) where
  -- A connection that is given a session's tunnel is counted in that session, whose node is the
  -- tunnel's, whether the session is new, goes on, or has moved to another node.
  pub allocate_tunnel_by_user_session-Allocated :
      (m : Manager) (db : r.Db) (id : Str)
      → (allocate_tunnel_by_user_session r draw now user (c ∷ cs) sess_time (m, db)).0
        ≡ ok (id, true)
      → Allocated
          (allocate_tunnel_by_user_session r draw now user (c ∷ cs) sess_time (m, db)).1.0
          user.user_name
          (c ∷ cs)
          (session_at m user.user_name (c ∷ cs))
          id
  unfolding allocate_tunnel_by_user_session
  allocate_tunnel_by_user_session-Allocated m db id h =
      let old = session_at m user.user_name (c ∷ cs) in
      let m' = with_user_map r user.user_name m in
      again_or_new-Allocated r now user (c ∷ cs) sess_time old (tunnel_of r m' old) m' db refl h

  -- When a new session gets a free node that has no tunnel, the call fails, and leaves a session
  -- with one counted connection, which as it stands is not expired at any later time.
  pub allocate_tunnel_by_user_session-leaks :
      (m : Manager) (db : r.Db) (id : Str)
      → session_at m user.user_name (c ∷ cs) ≡ none
      → (allocate_free_node r db).0 ≡ ok id
      → lookup id m.tunnels ≡ none
      → let out = allocate_tunnel_by_user_session r draw now user (c ∷ cs) sess_time (m, db) in
        (out.0 ≡ err (tunnel_not_found id)) × Leaked out.1.0 user.user_name (c ∷ cs) id
  unfolding allocate_tunnel_by_user_session again_or_new tunnel_of with_user_map
  allocate_tunnel_by_user_session-leaks m db id fresh popped unknown = rw fresh (
      on_new_node-Leaked r now user (c ∷ cs) sess_time (with_user_map r user.user_name m)
        (allocate_free_node r db) id popped unknown)
