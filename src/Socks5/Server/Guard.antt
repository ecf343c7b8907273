-- ===== src/Socks5/Server/Guard.antt =====
-- What a connection has passed when it reaches the part that dials out.
use titan_ipoverlay.Prelude.{
  subst, ℕ, ◌≡◌, refl, inl, inr, Bool, true, false, Option, none, some, ◌∷◌, arith, ◌==◌,
  if◌then◌else◌, Bool-cases,
}
use titan_ipoverlay.Prelude.Str.{Str}
use titan_ipoverlay.Prelude.Exec.{Result, ok, ◌>>=◌, ◌>>◌, pure, raise, bind-eq-ok}
use titan_ipoverlay.Socks5.Conn.{
  Error, Conn, read_byte, connect_command, bind_command, associate_command, success_reply,
  command_not_supported, bind_unsupported, bad_command, socks5_version, bad_version,
}
use titan_ipoverlay.Socks5.Ip
use titan_ipoverlay.Socks5.Ip.{Net}
use titan_ipoverlay.Socks5.Username.{User}
use titan_ipoverlay.Socks5.Address.{Request, new_request, reply_socks5_client}
use titan_ipoverlay.Socks5.Auth.{authenticate}
use titan_ipoverlay.Socks5.Auth.Safety.{LetIn, authenticate-LetIn}
use titan_ipoverlay.Socks5.Auth.Input.{read_byte-ok}
use titan_ipoverlay.Socks5.Server.{
  Action, handle_tcp, associate, Env, drain, refuse, target_of, connect_reply,
  handle_socks5_connect, handle_socks5_bind, unsupported, handle_socks5_request, with_user,
  serve_request, check_socks_version, serve_socks5_conn,
}

-- The user on whose behalf an action is taken.
abbrev pub actor : Action → Str
actor (handle_tcp t) = t.username
actor (associate username src_ip) = username

authenticate-LetIn_on :
    (handle_user_auth : Str → Str → Result Error (Unit {0})) (enable_auth : Bool) (c : Conn)
    (u : Option User)
    → enable_auth ≡ true
    → (authenticate handle_user_auth enable_auth c).0 ≡ ok u
    → (user : User) × (u ≡ some user) × LetIn handle_user_auth c.input user
authenticate-LetIn_on handle_user_auth enable_auth c u on h =
    authenticate-LetIn handle_user_auth c u (rw on at h)

module _ (net : Net) where
  -- An address that a client writes as text is not one of the refused ones.
  abbrev pub IsAllowed : Action → Type 0
  IsAllowed (handle_tcp t) =
      (ip : Str) → net.parse_ip t.domain_name ≡ some ip → Ip.forbidden_ip ip ≡ false
  IsAllowed (associate username src_ip) = Unit {0}

module _ (net : Net) (env : Env) where
  refuse-ok :
      (o : Option Str) (c : Conn)
      → (refuse o c).0 ≡ ok tt
      → (ip : Str) → o ≡ some ip
      → Ip.forbidden_ip ip ≡ false
  unfolding refuse
  refuse-ok none c h ip e = cc
  refuse-ok (some ip') c h ip e = ground arith

  connect_reply-ok :
      (req : Request) (extra : Str) (c : Conn) (a : Action)
      → (connect_reply net env req extra c).0 ≡ ok a
      → a ≡ handle_tcp (target_of net env req extra)
  unfolding connect_reply
  connect_reply-ok req extra c a h =
      let (_, _, done, _) =
        bind-eq-ok (reply_socks5_client success_reply _)
          (λ _. pure (handle_tcp (target_of net env req extra))) c h in
      cc

  abbrev Passed : Request → Action → Type 0
  Passed req a = (actor a ≡ req.user.username) × IsAllowed net a

  connect-Passed :
      (req : Request) (c : Conn) (a : Action)
      → (handle_socks5_connect net env req c).0 ≡ ok a
      → Passed req a
  unfolding handle_socks5_connect
  connect-Passed req c a h =
      let next = λ (_ : Unit {0}). drain env.buffered >>= connect_reply net env req in
      let (tt', allowed, done, _) =
        bind-eq-ok (refuse (net.parse_ip req.dest_addr.fqdn)) next c h in
      rw (connect_reply-ok req _ _ a done)
        (refl, refuse-ok (net.parse_ip req.dest_addr.fqdn) c allowed)

  refused-fails :
      (e : Error) (c : Conn) (a : Action)
      → ((reply_socks5_client command_not_supported none >> raise e) c).0 ≡ ok a
      → ⊥
  refused-fails e c a h =
      let (_, _, raised, _) =
        bind-eq-ok (reply_socks5_client command_not_supported none) (λ _. raise e) c h in
      cc

  other-Passed :
      (req : Request) (c : Conn) (a : Action)
      → ((if req.command == bind_command
            then handle_socks5_bind net env req
            else if req.command == associate_command
            then pure (associate req.user.username req.src_ip)
            else unsupported net env req)
          c).0
        ≡ ok a
      → Passed req a
  unfolding handle_socks5_bind unsupported
  other-Passed req c a h = elim (Bool-cases (req.command == bind_command)) [
    | inl is_bind ↦ absurd (refused-fails bind_unsupported c a (rw is_bind at h))
    | inr not_bind ↦ elim (Bool-cases (req.command == associate_command)) [
      | inl is_assoc ↦ associated (rw (not_bind, is_assoc) at h)
      | inr neither ↦
          absurd (refused-fails (bad_command req.command) c a (rw (not_bind, neither) at h))
    ]
  ]
    where
      associated :
          ◌≡◌ {A = Result Error Action} (ok (associate req.user.username req.src_ip)) (ok a)
          → Passed req a
      associated e = ground arith

  request-Passed :
      (req : Request) (c : Conn) (a : Action)
      → (handle_socks5_request net env req c).0 ≡ ok a
      → Passed req a
  unfolding handle_socks5_request handle_socks5_bind unsupported
  request-Passed req c a h = elim (Bool-cases (req.command == connect_command)) [
    | inl con ↦ connect-Passed req c a (rw con at h)
    | inr other ↦ other-Passed req c a (rw other at h)
  ]

  serve_request-Passed :
      (user : User) (c : Conn) (a : Action)
      → (serve_request net env (some user) c).0 ≡ ok a
      → (actor a ≡ user.username) × IsAllowed net a
  unfolding serve_request with_user
  serve_request-Passed user c a h =
      let handle =
        λ (req : Request). handle_socks5_request net env (with_user net env (some user) req) in
      let (req, _, done, _) = bind-eq-ok (new_request net env.remote_addr) handle c h in
      request-Passed (with_user net env (some user) req) _ a done

  as_user :
      (u : Option User) (user : User) (c : Conn) (a : Action)
      → u ≡ some user
      → (serve_request net env u c).0 ≡ ok a
      → (serve_request net env (some user) c).0 ≡ ok a
  as_user u user c a e h = subst (λ v. (serve_request net env v c).0 ≡ ok a) e h

  version-ok :
      (v : ℕ) (c : Conn)
      → (check_socks_version net env v c).0 ≡ ok tt
      → (v ≡ socks5_version) × ((check_socks_version net env v c).1 ≡ c)
  unfolding check_socks_version
  version-ok v c h = go (v == socks5_version) refl h
    where
      out : Bool → Result Error (Unit {0}) × Conn
      out b = (if b then pure tt else raise bad_version) c

      go :
          (b : Bool)
          → (v == socks5_version) ≡ b
          → (out b).0 ≡ ok tt
          → (v ≡ socks5_version) × ((out b).1 ≡ c)
      go true e k = ground (arith, e)
      go false e k = absurd (cc k)

  -- With authentication on, whatever the client sends, the server dials out or associates only for
  -- the user of the name that the client has sent behind the version and its methods, when the
  -- handler has accepted the password that the client has sent behind that name, and never to a loopback, private or multicast address that the
  -- client gave as text.
  pub serve_socks5_conn-guarded :
      (handle_user_auth : Str → Str → Result Error (Unit {0})) (c : Conn) (a : Action)
      → env.enable_auth ≡ true
      → (serve_socks5_conn net env handle_user_auth c).0 ≡ ok a
      → (user : User) × (input : Str) × (c.input ≡ socks5_version ∷ input)
        × LetIn handle_user_auth input user
        × (actor a ≡ user.username)
        × IsAllowed net a
  unfolding serve_socks5_conn
  serve_socks5_conn-guarded handle_user_auth c a auth h =
      let sign_in = authenticate handle_user_auth env.enable_auth in
      let rest = λ (v : ℕ). check_socks_version net env v >> (sign_in >>= serve_request net env) in
      let (v, e, h1, _) = bind-eq-ok read_byte rest c h in
      let c1 = (read_byte c).1 in
      let (_, passes, h2, _) =
        bind-eq-ok (check_socks_version net env v) (λ _. sign_in >>= serve_request net env) c1 h1 in
      let (version, same) = version-ok v c1 passes in
      let c2 = (check_socks_version net env v c1).1 in
      let (u, signed, h3, _) = bind-eq-ok sign_in (serve_request net env) c2 h2 in
      let (user, known, let_in) =
        authenticate-LetIn_on handle_user_auth env.enable_auth c2 u auth signed in
      let (acts, allowed) = serve_request-Passed user _ a (as_user u user _ a known h3) in
      (
        user,
        c1.input,
        subst (λ n. c.input ≡ n ∷ c1.input) version (read_byte-ok c e),
        subst (λ t. LetIn handle_user_auth t.input user) same let_in,
        acts,
        allowed,
      )
