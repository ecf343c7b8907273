-- ===== src/Ws/Sessions/Recycle.antt =====
-- Which sessions are gone after the expired ones were collected and removed.
use titan_ipoverlay.Prelude.{
  ℕ, ◌≡◌, refl, ap, ◌∙◌, inl, inr, Bool, true, false, ◌&&◌, ◌||◌, Option, none, some, List, [], ◌∷◌,
  ◌++◌, arith, if◌then◌else◌, Bool-cases,
}
use titan_ipoverlay.Prelude.Str.{Str, str_eq, str_eq_iff}
use titan_ipoverlay.Prelude.Assoc.{Assoc, lookup, remove, lookup-insert, lookup-remove}
use titan_ipoverlay.Redis.{Redis}
use titan_ipoverlay.Model.{Error}
use titan_ipoverlay.Ws.Sessions.{
  Session, Manager, sessions_of, is_expired, ExpiredSession, expired_of_user, collect_from,
  collect_expired_sessions, drop_session, freed, remove_sessions,
}
use titan_ipoverlay.Ws.Sessions.Outcome.{session_at}

-- A list of expired sessions names this one.
abbrev pub is_named : Str → Str → List ExpiredSession → Bool
is_named user id [] = false
is_named user id (e ∷ es) =
    (str_eq e.username user && str_eq e.session_id id) || is_named user id es

drop_session-at :
    (user id u j : Str) (m : Manager) (rest : Assoc Session)
    → rest ≡ remove id (sessions_of (lookup user m.user_sessions))
    → session_at (drop_session user rest m) u j
      ≡ (if str_eq user u && str_eq id j then none else session_at m u j)
unfolding drop_session
drop_session-at user id u j m [] e = elim (Bool-cases (str_eq user u)) [
  | inl s ↦ rw (lookup-remove user u m.user_sessions) (rw s (gone_of ((str_eq_iff user u).0 s)))
  | inr s ↦ rw (lookup-remove user u m.user_sessions) (rw s refl)
]
  where
    gone_of : user ≡ u → lookup j [] ≡ (if str_eq id j then none else session_at m u j)
    gone_of same =
        ap (lookup j) e
        ∙ lookup-remove id j (sessions_of (lookup user m.user_sessions))
        ∙ rw same refl
drop_session-at user id u j m (x ∷ rest) e = elim (Bool-cases (str_eq user u)) [
  | inl s ↦
      rw (lookup-insert user u (x ∷ rest) m.user_sessions)
        (rw s (kept_of ((str_eq_iff user u).0 s)))
  | inr s ↦ rw (lookup-insert user u (x ∷ rest) m.user_sessions) (rw s refl)
]
  where
    kept_of : user ≡ u → lookup j (x ∷ rest) ≡ (if str_eq id j then none else session_at m u j)
    kept_of same =
        ap (lookup j) e
        ∙ lookup-remove id j (sessions_of (lookup user m.user_sessions))
        ∙ rw same refl

either :
    (a b : Bool) (x : Option Session)
    → (if b then none else if a then none else x) ≡ (if a || b then none else x)
either true true x = refl
either true false x = refl
either false true x = refl
either false false x = refl

module _ (r : Redis Error) (unix : ℕ) where
  remove_sessions-at :
      (es : List ExpiredSession) (m : Manager) (db : r.Db) (u j : Str)
      → session_at (remove_sessions r unix es (m, db)).0 u j
        ≡ (if is_named u j es then none else session_at m u j)
  unfolding remove_sessions
  remove_sessions-at [] m db u j = refl
  remove_sessions-at (e ∷ es) m db u j =
      rw
        (
          remove_sessions-at es
              (drop_session e.username
                (remove e.session_id (sessions_of (lookup e.username m.user_sessions))) m)
              (freed r unix e.is_lease_device e.device_id db) u j,
          drop_session-at e.username e.session_id u j m
              (remove e.session_id (sessions_of (lookup e.username m.user_sessions))) refl,
        )
        (either (str_eq e.username u && str_eq e.session_id j) (is_named u j es) (session_at m u j))

-- A Go map has each key once, and so has the map of each user.
abbrev pub UniqueKeys : {V : Type 0} → Assoc V → Type 0
UniqueKeys [] = Unit {0}
UniqueKeys ((k, v) ∷ m) = (lookup k m ≡ none) × UniqueKeys m

abbrev pub AllUnique : Assoc (Assoc Session) → Type 0
AllUnique [] = Unit {0}
AllUnique ((u, ss) ∷ us) = UniqueKeys ss × AllUnique us

abbrev pub expired_at : ℕ → Option Session → Bool
expired_at now none = false
expired_at now (some s) = is_expired now s

is_named-append :
    (u j : Str) (a b : List ExpiredSession)
    → is_named u j (a ++ b) ≡ (is_named u j a || is_named u j b)
is_named-append u j [] b = refl
is_named-append u j (e ∷ a) b = rw (is_named-append u j a b) (ground arith)

named_cons :
    (u j : Str) (b : Bool) (e : ExpiredSession) (rest : List ExpiredSession)
    → is_named u j (if b then e ∷ rest else rest)
      ≡ ((b && (str_eq e.username u && str_eq e.session_id j)) || is_named u j rest)
named_cons u j true e rest = refl
named_cons u j false e rest = refl

hit : (a b : Bool) → ((b && (a && true)) || (a && false)) ≡ (a && b)
hit a b = ground arith

miss : (a b c : Bool) → ((b && (a && false)) || (a && c)) ≡ (a && c)
miss a b c = ground arith

named_of_user :
    (now : ℕ) (m : Manager) (user u j : Str) (ss : Assoc Session)
    → UniqueKeys ss
    → is_named u j (expired_of_user now m user ss) ≡ (str_eq user u && expired_at now (lookup j ss))
unfolding expired_of_user lookup
named_of_user now m user u j [] h = ground arith
named_of_user now m user u j ((id, s) ∷ ss) h =
    named_cons u j (is_expired now s) _ (expired_of_user now m user ss)
    ∙ rw (named_of_user now m user u j ss h.1) (elim (Bool-cases (str_eq id j)) [
      | inl e ↦
          let absent : lookup j ss ≡ none = rw ((str_eq_iff id j).0 e) at h.0 in
          rw (e, absent) (hit (str_eq user u) (is_expired now s))
      | inr e ↦ rw e (miss (str_eq user u) (is_expired now s) (expired_at now (lookup j ss)))
    ])

named_collected :
    (now : ℕ) (m : Manager) (u j : Str) (us : Assoc (Assoc Session))
    → UniqueKeys us
    → AllUnique us
    → is_named u j (collect_from now m us) ≡ expired_at now (lookup j (sessions_of (lookup u us)))
unfolding collect_from lookup
named_collected now m u j [] h k = refl
named_collected now m u j ((user, ss) ∷ us) h k =
    is_named-append u j (expired_of_user now m user ss) (collect_from now m us)
    ∙ rw (named_of_user now m user u j ss k.0, named_collected now m u j us h.1 k.1)
        (elim (Bool-cases (str_eq user u)) [
          | inl e ↦
              let absent : lookup u us ≡ none = rw ((str_eq_iff user u).0 e) at h.0 in
              rw (e, absent) (or_false (expired_at now (lookup j ss)))
          | inr e ↦ rw e refl
        ])
  where
    or_false : (a : Bool) → ((true && a) || false) ≡ a
    or_false a = ground arith

-- The session as a recycling at `now` leaves it.
abbrev pub kept_at : ℕ → Option Session → Option Session
kept_at now none = none
kept_at now (some s) = if is_expired now s then none else some s

kept_expired :
    (now : ℕ) (o : Option Session) → (if expired_at now o then none else o) ≡ kept_at now o
kept_expired now none = ground arith
kept_expired now (some s) = refl

-- When the expired sessions are collected and removed, every expired session of every user is gone
-- and every other session is as it was.
pub remove_sessions-collect_expired_sessions :
    (r : Redis Error) (now unix : ℕ) (m : Manager) (db : r.Db) (u j : Str)
    → UniqueKeys m.user_sessions
    → AllUnique m.user_sessions
    → session_at (remove_sessions r unix (collect_expired_sessions now m) (m, db)).0 u j
      ≡ kept_at now (session_at m u j)
unfolding collect_expired_sessions
remove_sessions-collect_expired_sessions r now unix m db u j h k =
    remove_sessions-at r unix (collect_from now m m.user_sessions) m db u j
    ∙ rw (named_collected now m u j m.user_sessions h k) (kept_expired now (session_at m u j))
