-- ===== src/Socks5/Counts/Effects.antt =====
-- What the start and the end of an association do to the counts and the UDP servers.
use titan_ipoverlay.Prelude.{
  ℕ, suc, ◌-◌, ◌≡◌, refl, Bool, true, false, Option, none, some, List, [], ◌∷◌, leb, arith,
  if◌then◌else◌, ◌&&◌,
}
use titan_ipoverlay.Prelude.Str.{Str, str_eq, str_eq_iff}
use titan_ipoverlay.Prelude.Assoc.{Assoc, lookup, lookup-insert, lookup-remove}
use titan_ipoverlay.Prelude.Exec.{ok, err}
use titan_ipoverlay.Socks5.Conn.{Error}
use titan_ipoverlay.Socks5.Counts.{
  get, incr, decr, value_or_0, UdpServer, Server, user_udp_decr, listen, key_user_ip_count, UdpEnv,
  started, load_or_new, associate_open, associate_close,
}

-- The associations that are open, by user name and source address.
abbrev pub Opens : Type 0
Opens = List (Str × Str)

abbrev pub of_user : Str → Opens → ℕ
of_user u [] = 0
of_user u ((name, ip) ∷ os) = if str_eq name u then suc (of_user u os) else of_user u os

abbrev pub of_key : Str → Opens → ℕ
of_key k [] = 0
of_key k ((name, ip) ∷ os) =
    if str_eq (key_user_ip_count name ip) k then suc (of_key k os) else of_key k os

abbrev pub is_some : Option UdpServer → Bool
is_some none = false
is_some (some srv) = true

get-incr :
    (k j : Str) (m : Assoc ℕ) → get j (incr k m) ≡ (if str_eq k j then suc (get j m) else get j m)
unfolding get incr
get-incr k j m = rw lookup-insert (ground (arith, str_eq_iff k j))

get-decr :
    (k j : Str) (m : Assoc ℕ) → get j (decr k m) ≡ (if str_eq k j then get j m - 1 else get j m)
unfolding get decr
get-decr k j m =
    ground (
      arith,
      str_eq_iff k j,
      lookup-insert k j (value_or_0 (lookup k m) - 1) m,
      lookup-remove k j m,
    )

module _ (env : UdpEnv) (u : Str) where
  users-load_or_new :
      (o : Option UdpServer) (s : Server) → (load_or_new env u o s).1.users ≡ s.users
  unfolding load_or_new
  users-load_or_new o s = ground arith

  user_ip-load_or_new :
      (o : Option UdpServer) (s : Server) → (load_or_new env u o s).1.user_ip ≡ s.user_ip
  unfolding load_or_new
  user_ip-load_or_new o s = ground arith

  served-started :
      (o : Option ℕ) (s : Server) (srv : UdpServer) (j : Str)
      → (started env u o s).0 ≡ ok srv
      → is_some (lookup j (started env u o s).1.udp_servers)
        ≡ (if str_eq u j then true else is_some (lookup j s.udp_servers))
  unfolding started
  served-started none s srv j h = cc
  served-started (some port) s srv j h = rw lookup-insert (ground arith)

  -- When a server is found or started, the user has one, and nothing else changes.
  served-load_or_new :
      (o : Option UdpServer) (s : Server) (srv : UdpServer) (j : Str)
      → lookup u s.udp_servers ≡ o
      → (load_or_new env u o s).0 ≡ ok srv
      → is_some (lookup j (load_or_new env u o s).1.udp_servers)
        ≡ (if str_eq u j then true else is_some (lookup j s.udp_servers))
  unfolding load_or_new
  served-load_or_new none s srv j e h =
      served-started (listen env.free env.port_start env.port_end) s srv j h
  served-load_or_new (some old) s srv j e h = ground (arith, str_eq_iff u j)

  servers-refused :
      (o : Option UdpServer) (s : Server) (e : Error)
      → lookup u s.udp_servers ≡ o
      → (load_or_new env u o s).0 ≡ err e
      → ((load_or_new env u o s).1.udp_servers ≡ s.udp_servers) × (lookup u s.udp_servers ≡ none)
  unfolding load_or_new
  servers-refused o s e k h = ground arith

module _ (env : UdpEnv) (u ip : Str) (s : Server) where
  -- What a handler leaves when it has started an association.
  pub users-open :
      (j : Str)
      → get j (associate_open env u ip s).1.users
        ≡ (if str_eq u j then suc (get j s.users) else get j s.users)
  unfolding associate_open
  users-open j = rw users-load_or_new (get-incr u j s.users)

  pub user_ip-open :
      (k : Str)
      → get k (associate_open env u ip s).1.user_ip
        ≡ (if str_eq (key_user_ip_count u ip) k then suc (get k s.user_ip) else get k s.user_ip)
  unfolding associate_open
  user_ip-open k = rw user_ip-load_or_new (get-incr (key_user_ip_count u ip) k s.user_ip)

  pub served-open :
      (srv : UdpServer) (j : Str)
      → (associate_open env u ip s).0 ≡ ok srv
      → is_some (lookup j (associate_open env u ip s).1.udp_servers)
        ≡ (if str_eq u j then true else is_some (lookup j s.udp_servers))
  unfolding associate_open
  served-open srv j h = served-load_or_new env u (lookup u s.udp_servers) _ srv j refl h

  pub servers-failed :
      (e : Error)
      → (associate_open env u ip s).0 ≡ err e
      → ((associate_open env u ip s).1.udp_servers ≡ s.udp_servers)
        × (lookup u s.udp_servers ≡ none)
  unfolding associate_open
  servers-failed e h = servers-refused env u (lookup u s.udp_servers) _ e refl h

module _ (u ip : Str) (s : Server) where
  pub users-close :
      (j : Str)
      → get j (associate_close u ip s).users
        ≡ (if str_eq u j then get j s.users - 1 else get j s.users)
  unfolding associate_close user_udp_decr get
  users-close j = ground (
    arith,
    str_eq_iff u j,
    lookup-insert u j (value_or_0 (lookup u s.users) - 1) s.users,
    lookup-remove u j s.users,
  )

  pub user_ip-decr : (user_udp_decr u s).user_ip ≡ s.user_ip
  unfolding user_udp_decr
  user_ip-decr = ground arith

  pub user_ip-close :
      (k : Str)
      → get k (associate_close u ip s).user_ip
        ≡ (if str_eq (key_user_ip_count u ip) k then get k s.user_ip - 1 else get k s.user_ip)
  unfolding associate_close user_udp_decr
  user_ip-close k = rw user_ip-decr (get-decr (key_user_ip_count u ip) k s.user_ip)

  -- The user's server goes with the last association.
  pub served-close :
      (j : Str)
      → is_some (lookup j (associate_close u ip s).udp_servers)
        ≡ (if str_eq u j && leb (get u s.users) 1 then false else is_some (lookup j s.udp_servers))
  unfolding associate_close user_udp_decr get
  served-close j = ground (arith, lookup-remove u j s.udp_servers)
