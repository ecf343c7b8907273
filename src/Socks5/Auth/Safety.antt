-- ===== src/Socks5/Auth/Safety.antt =====
-- Nobody passes the exchange unless the handler has accepted the name and the password that the
-- client has sent.
use titan_ipoverlay.Prelude.{◌≡◌, refl, subst, Bool, true, false, Option, some, ◌∷◌, ◌++◌, length}
use titan_ipoverlay.Prelude.Str.{Str}
use titan_ipoverlay.Prelude.Exec.{Result, ok, err, pure, raise, bind-eq-ok}
use titan_ipoverlay.Socks5.Conn.{Error, Conn, write, user_pass_auth, user_auth_version, auth_failed}
use titan_ipoverlay.Socks5.Username.{User, parse_username}
use titan_ipoverlay.Socks5.Auth.{
  read_auth_methods, no_acceptable_auth, user_pass_auth_failure, has_method, accepted, check_user,
  check_credentials, user_pass_exchange, negotiated, authenticate, read_user_and_password,
  reply_client_need_password,
}
use titan_ipoverlay.Socks5.Auth.Input.{
  write-input, read_auth_methods-ok, read_user_and_password-AfterPass,
}
use titan_ipoverlay.Socks5.Auth.Run.{sign_in}

failure_fails : (c : Conn) {u : Option User} → (user_pass_auth_failure c).0 ≡ ok u → ⊥
unfolding user_pass_auth_failure
failure_fails c h = let (_, _, raised, _) = bind-eq-ok (write _) (λ _. raise auth_failed) c h in cc

module _ (handle_user_auth : Str → Str → Result Error (Unit {0})) where
  -- The user that this name and this password let in.
  abbrev Accepted : Str → Str → Option User → Type 0
  Accepted username pass u =
      (user : User) × (u ≡ some user)
      × (parse_username username ≡ ok user)
      × (handle_user_auth user.username pass ≡ ok tt)

  -- The client's bytes are a message of the methods that it offers, the password method among
  -- them, and a message with a name and a password that let the user in.
  pub record LetIn (input : Str) (user : User) : Type 0 where
    pub methods : Str
    pub username : Str
    pub pass : Str
    pub rest : Str
    pub sent : input ≡ sign_in handle_user_auth methods username pass rest
    pub offered : has_method user_pass_auth methods ≡ true
    pub parses : parse_username username ≡ ok user
    pub accepted : handle_user_auth user.username pass ≡ ok tt

  check_user-Accepted :
      (c : Conn) (username pass : Str) (r : Result Error User) (u : Option User)
      → parse_username username ≡ r
      → (check_user handle_user_auth pass r c).0 ≡ ok u
      → Accepted username pass u
  unfolding check_user accepted
  check_user-Accepted c username pass (err e) u p h = absurd (failure_fails c h)
  check_user-Accepted c username pass (ok user) u p h =
      go (handle_user_auth user.username pass) refl h
    where
      go :
          (a : Result Error (Unit {0}))
          → handle_user_auth user.username pass ≡ a
          → (accepted handle_user_auth user a c).0 ≡ ok u
          → Accepted username pass u
      go (err e) q k = absurd (failure_fails c k)
      go (ok tt) q k =
          let (_, _, done, _) = bind-eq-ok (write _) (λ _. pure (some user)) c k in (user, cc, p, q)

  -- What the client has sent from the name on.
  abbrev Named : Str → Option User → Type 0
  Named input u =
      (username : Str) × (pass : Str) × (rest : Str) × (input
        ≡ user_auth_version ∷ length username ∷ (username ++ length pass ∷ (pass ++ rest)))
      × Accepted username pass u

  check_credentials-Named :
      (c0 c : Conn) (r : Result Error (Str × Str)) (u : Option User)
      → (read_user_and_password c0).0 ≡ r
      → (check_credentials handle_user_auth r c).0 ≡ ok u
      → Named c0.input u
  unfolding check_credentials
  check_credentials-Named c0 c (err e) u q h = absurd (failure_fails c h)
  check_credentials-Named c0 c (ok (username, pass)) u q h = (
    username,
    pass,
    (read_user_and_password c0).1.input,
    read_user_and_password-AfterPass c0.input c0 (username, pass) refl q,
    check_user-Accepted c username pass (parse_username username) u refl h,
  )

  user_pass_exchange-Named :
      (c : Conn) (u : Option User)
      → (user_pass_exchange handle_user_auth c).0 ≡ ok u
      → Named c.input u
  unfolding user_pass_exchange reply_client_need_password
  user_pass_exchange-Named c u h =
      let exchange = λ (c' : Conn).
        let (r, c'') = read_user_and_password c' in check_credentials handle_user_auth r c'' in
      let (_, _, done, _) = bind-eq-ok (write _) (λ _. exchange) c h in
      subst (λ i. Named i u) (write-input _ c) (check_credentials-Named _ _ _ u refl done)

  no_acceptable_auth-fails : (c : Conn) {u : Option User} → (no_acceptable_auth c).0 ≡ ok u → ⊥
  unfolding no_acceptable_auth
  no_acceptable_auth-fails c h = cc

  negotiated-Named :
      (offered : Bool) (c : Conn) (u : Option User)
      → (negotiated handle_user_auth true offered c).0 ≡ ok u
      → (offered ≡ true) × Named c.input u
  unfolding negotiated
  negotiated-Named false c u h = absurd (no_acceptable_auth-fails c h)
  negotiated-Named true c u h = (refl, user_pass_exchange-Named c u h)

  -- With authentication on, a client gets past `authenticate` only as a user whose name it has sent,
  -- with a password that the handler has accepted for that name, behind an offer of the password
  -- method.
  pub authenticate-LetIn :
      (c : Conn) (u : Option User)
      → (authenticate handle_user_auth true c).0 ≡ ok u
      → (user : User) × (u ≡ some user) × LetIn c.input user
  unfolding authenticate
  authenticate-LetIn c u h =
      let offer = λ (methods : Str). has_method user_pass_auth methods in
      let (methods, first, agreed, _) =
        bind-eq-ok read_auth_methods (λ methods. negotiated handle_user_auth true (offer methods)) c
          h in
      let (offered, named) = negotiated-Named (offer methods) _ u agreed in
      let (username, pass, rest, sent, lets) = named in
      let (user, same, parses, lets_in) = lets in
      (
        user,
        same,
        record {
          methods = methods;
          username = username;
          pass = pass;
          rest = rest;
          sent =
              subst (λ i. c.input ≡ length methods ∷ (methods ++ i)) sent
                (read_auth_methods-ok c first);
          offered = offered;
          parses = parses;
          accepted = lets_in;
        },
      )
