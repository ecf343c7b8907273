-- ===== src/Socks5/Counts/Associations.antt =====
-- The counts and the UDP servers against the associations that are open.
use titan_ipoverlay.Prelude.{
  suc, ◌≡◌, refl, ap, [], ◌∷◌, ◌++◌, ltb, arith, if◌then◌else◌, inl, inr, ◌⊎◌,
}
use titan_ipoverlay.Prelude.Str.{Str, str_eq, str_eq_iff, str_eq_refl}
use titan_ipoverlay.Prelude.Assoc.{lookup}
use titan_ipoverlay.Prelude.Exec.{Result, ok, err}
use titan_ipoverlay.Socks5.Conn.{Error}
use titan_ipoverlay.Socks5.Counts.{
  get, UdpServer, Server, key_user_ip_count, UdpEnv, associate_open, associate_close, failed_closes,
  associate_start,
}
use titan_ipoverlay.Socks5.Counts.Effects.{
  Opens, of_user, of_key, is_some, users-open, user_ip-open, served-open, servers-failed,
  users-close, user_ip-close, served-close,
}

-- The counts are those of the open associations, and a user has a UDP server just while one of its
-- associations is open.
pub record Inv (s : Server) (os : Opens) : Type 0 where
  pub by_user : (u : Str) → get u s.users ≡ of_user u os
  pub by_key : (k : Str) → get k s.user_ip ≡ of_key k os
  pub served : (u : Str) → is_some (lookup u s.udp_servers) ≡ ltb 0 (of_user u os)

-- An association starts, fails to start, or ends, wherever it stands among the open ones.
pub data Step (s : Server) (os : Opens) (s' : Server) (os' : Opens) : Type 0 where
  starts :
      (env : UdpEnv) (u ip : Str) (srv : UdpServer)
      → associate_start env u ip s ≡ (ok srv, s')
      → os' ≡ (u, ip) ∷ os
      → Step s os s' os'
  fails :
      (env : UdpEnv) (u ip : Str) (e : Error)
      → associate_start env u ip s ≡ (err e, s')
      → os' ≡ os
      → Step s os s' os'
  ends :
      (u ip : Str) (before after : Opens)
      → s' ≡ associate_close u ip s
      → os ≡ before ++ ((u, ip) ∷ after)
      → os' ≡ before ++ after
      → Step s os s' os'

of_user-middle :
    (u j ip : Str) (before after : Opens)
    → of_user j (before ++ ((u, ip) ∷ after))
      ≡ (if str_eq u j then suc (of_user j (before ++ after)) else of_user j (before ++ after))
of_user-middle u j ip [] after = refl
of_user-middle u j ip ((n, i) ∷ before) after = ground (arith, of_user-middle u j ip before after)

of_key-middle :
    (u ip k : Str) (before after : Opens)
    → of_key k (before ++ ((u, ip) ∷ after)) ≡ (
        if str_eq (key_user_ip_count u ip) k
        then suc (of_key k (before ++ after))
        else of_key k (before ++ after))
of_key-middle u ip k [] after = refl
of_key-middle u ip k ((n, i) ∷ before) after = ground (arith, of_key-middle u ip k before after)

open-Inv :
    (env : UdpEnv) (u ip : Str) (s : Server) (os : Opens) (srv : UdpServer)
    → (associate_open env u ip s).0 ≡ ok srv
    → Inv s os
    → Inv (associate_open env u ip s).1 ((u, ip) ∷ os)
open-Inv env u ip s os srv h v = record {
  by_user = λ j. rw (users-open env u ip s j, v.by_user j);
  by_key = λ k. rw (user_ip-open env u ip s k, v.by_key k);
  served = λ j. rw (served-open env u ip s srv j h, v.served j) (ground arith);
}

-- The server is judged by the count before the close, with the association among the open ones.
served-after :
    (u ip j : Str) (s : Server) (before after : Opens)
    → get u s.users ≡ of_user u (before ++ ((u, ip) ∷ after))
    → is_some (lookup j s.udp_servers) ≡ ltb 0 (of_user j (before ++ ((u, ip) ∷ after)))
    → is_some (lookup j (associate_close u ip s).udp_servers) ≡ ltb 0 (of_user j (before ++ after))
served-after u ip j s before after n srv =
    rw
      (
        served-close u ip s j,
        n,
        srv,
        of_user-middle u u ip before after,
        of_user-middle u j ip before after,
        str_eq_refl u,
      )
      (ground (arith, str_eq_iff u j))

close-Inv :
    (u ip : Str) (s : Server) (before after : Opens)
    → Inv s (before ++ ((u, ip) ∷ after))
    → Inv (associate_close u ip s) (before ++ after)
close-Inv u ip s before after v = record {
  by_user = λ j.
      rw (users-close u ip s j, v.by_user j, of_user-middle u j ip before after) (ground arith);
  by_key = λ k.
      rw (user_ip-close u ip s k, v.by_key k, of_key-middle u ip k before after) (ground arith);
  served = λ j. served-after u ip j s before after (v.by_user u) (v.served j);
}

fail-Inv :
    (env : UdpEnv) (u ip : Str) (s : Server) (os : Opens) (e : Error)
    → (associate_open env u ip s).0 ≡ err e
    → Inv s os
    → Inv (associate_close u ip (associate_open env u ip s).1) os
fail-Inv env u ip s os e h v = record {
  by_user = λ j. rw (users-close u ip s' j, users-open env u ip s j, v.by_user j) (ground arith);
  by_key = λ k. rw (user_ip-close u ip s' k, user_ip-open env u ip s k, v.by_key k) (ground arith);
  served = λ j.
      let (same, unserved) = servers-failed env u ip s e h in
      rw (served-close u ip s' j, same, ← v.served j) (ground (arith, str_eq_iff u j));
}
  where
    s' : Server
    s' = (associate_open env u ip s).1

start-cases :
    (env : UdpEnv) (u ip : Str) (s s' : Server) (r : Result Error UdpServer)
    → associate_start env u ip s ≡ (r, s')
    → ((srv : UdpServer) × ((associate_open env u ip s).0 ≡ ok srv)
        × (r ≡ ok srv)
        × (s' ≡ (associate_open env u ip s).1))
      ⊎ ((e : Error) × ((associate_open env u ip s).0 ≡ err e)
          × (r ≡ err e)
          × (s' ≡ associate_close u ip (associate_open env u ip s).1))
unfolding associate_start
start-cases env u ip s s' r h = go (associate_open env u ip s) refl h
  where
    go :
        (x : Result Error UdpServer × Server)
        → associate_open env u ip s ≡ x
        → failed_closes u ip x ≡ (r, s')
        → ((srv : UdpServer) × ((associate_open env u ip s).0 ≡ ok srv)
            × (r ≡ ok srv)
            × (s' ≡ (associate_open env u ip s).1))
          ⊎ ((e : Error) × ((associate_open env u ip s).0 ≡ err e)
              × (r ≡ err e)
              × (s' ≡ associate_close u ip (associate_open env u ip s).1))
    go (ok srv, s1) q k = inl (srv, ap (λ p. p.0) q, ground arith, ground arith)
    go (err e, s1) q k = inr (e, ap (λ p. p.0) q, ground arith, ground arith)

-- Every step keeps the counts exact and the servers tied to the open associations.
pub Step-Inv :
    (s : Server) (os : Opens) (s' : Server) (os' : Opens) → Step s os s' os' → Inv s os → Inv s' os'
Step-Inv s os s' os' (starts env u ip srv h e) v = elim (start-cases env u ip s s' (ok srv) h) [
  | inl (srv', opened, _, after) ↦ rw (after, e) (open-Inv env u ip s os srv' opened v)
  | inr (e', _, no_err, _) ↦ cc
]
Step-Inv s os s' os' (fails env u ip err' h e) v = elim (start-cases env u ip s s' (err err') h) [
  | inl (srv, _, no_srv, _) ↦ cc
  | inr (e', refused, _, after) ↦ rw (after, e) (fail-Inv env u ip s os e' refused v)
]
Step-Inv s os s' os' (ends u ip before after h e e') v =
    rw (h, e') (close-Inv u ip s before after (rw e at v))

abbrev pub no_server : Server
no_server = record { user_ip = []; users = []; udp_servers = [] }

-- What can be reached from a server without associations.
pub data Reach : Server → Opens → Type 0 where
  boot : (s : Server) (os : Opens) → s ≡ no_server → os ≡ [] → Reach s os
  next :
      (s : Server) (os : Opens) (s' : Server) (os' : Opens)
      → Reach s os
      → Step s os s' os'
      → Reach s' os'

no_server-Inv : Inv no_server []
unfolding get lookup
no_server-Inv = record { by_user = λ u. refl; by_key = λ k. refl; served = λ u. refl }

-- After any associations, started, failed and ended in any order: the counts are exact, and a user
-- has a UDP server exactly while one of its associations is open.
pub Reach-Inv : (s : Server) (os : Opens) → Reach s os → Inv s os
Reach-Inv s os (boot _ _ e e') = rw (e, e') no_server-Inv
Reach-Inv s' os' (next s os _ _ r step) = Step-Inv s os s' os' step (Reach-Inv s os r)
