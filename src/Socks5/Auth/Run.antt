-- ===== src/Socks5/Auth/Run.antt =====
-- The exchange from end to end: what a client that follows the protocol gets.
use titan_ipoverlay.Prelude.{
  ℕ, suc, ◌≡◌, Bool, true, false, some, [], ◌∷◌, ◌++◌, length, if◌then◌else◌,
}
use titan_ipoverlay.Prelude.Str.{Str}
use titan_ipoverlay.Prelude.Exec.{Result, ok, err}
use titan_ipoverlay.Socks5.Conn.{
  Error, Conn, write, read_byte, read_full_prefix, user_pass_auth, no_auth, auth_failed,
  no_auth_method, socks5_version, user_auth_version, user_auth_success, user_auth_failure,
  no_acceptable,
}
use titan_ipoverlay.Socks5.Username.{User, parse_username}
use titan_ipoverlay.Socks5.Auth.{
  read_auth_methods, no_acceptable_auth, user_pass_auth_failure, has_method, accepted, check_user,
  check_credentials, user_pass_exchange, authenticate, read_user_and_password, negotiated,
}

abbrev at : Str → Str → ℕ → Conn
at input w k = record { input = input; written = w; writable = k }

-- The message with a name and a password of RFC 1929.
abbrev pub credentials : Str → Str → Str
credentials username pass = user_auth_version ∷ length username ∷ (username ++ length pass ∷ pass)

read_back :
    (username pass rest w : Str) (k : ℕ)
    → read_user_and_password
        (at (user_auth_version ∷ length username ∷ (username ++ length pass ∷ (pass ++ rest))) w k)
      ≡ (ok (username, pass), at rest w k)
unfolding read_user_and_password read_byte
read_back username pass rest w k = rw (
  read_full_prefix (user_auth_version ∷ length username ∷ [])
      (username ++ length pass ∷ (pass ++ rest)) w k,
  read_full_prefix username (length pass ∷ (pass ++ rest)) w k,
  read_full_prefix pass rest w k,
)

read_methods :
    (methods rest w : Str) (k : ℕ)
    → read_auth_methods (at (length methods ∷ (methods ++ rest)) w k) ≡ (ok methods, at rest w k)
unfolding read_auth_methods read_byte
read_methods methods rest w k = rw (read_full_prefix methods rest w k)

module _ (handle_user_auth : Str → Str → Result Error (Unit {0})) where
  -- The bytes that a client sends to sign in.
  abbrev pub sign_in : Str → Str → Str → Str → Str
  sign_in methods username pass rest =
      length methods
      ∷ (methods
          ++ user_auth_version ∷ length username ∷ (username ++ length pass ∷ (pass ++ rest)))

  -- A client that offers the password method and whose name parses and is accepted gets in as that
  -- user; the server has sent the method and the success, and reads on behind the password.
  pub authenticate_accepts :
      (methods username pass rest w : Str) (k : ℕ) (user : User)
      → has_method user_pass_auth methods ≡ true
      → parse_username username ≡ ok user
      → handle_user_auth user.username pass ≡ ok tt
      → authenticate handle_user_auth true (at (sign_in methods username pass rest) w (suc (suc k)))
        ≡ (
          ok (some user),
          at rest
              ((w ++ socks5_version ∷ user_pass_auth ∷ [])
                ++ user_auth_version ∷ user_auth_success ∷ [])
              k,
        )
  unfolding authenticate negotiated user_pass_exchange check_credentials check_user accepted write
  authenticate_accepts methods username pass rest w k user offered parses lets_in = rw (
    read_methods methods
        (user_auth_version ∷ length username ∷ (username ++ length pass ∷ (pass ++ rest))) w
        (suc (suc k)),
    offered,
    read_back username pass rest (w ++ socks5_version ∷ user_pass_auth ∷ []) (suc k),
    parses,
    lets_in,
  )

  -- If the handler refuses, the client is told so and the exchange fails.
  pub authenticate_refuses :
      (methods username pass rest w : Str) (k : ℕ) (user : User) (e : Error)
      → has_method user_pass_auth methods ≡ true
      → parse_username username ≡ ok user
      → handle_user_auth user.username pass ≡ err e
      → authenticate handle_user_auth true (at (sign_in methods username pass rest) w (suc (suc k)))
        ≡ (
          err auth_failed,
          at rest
              ((w ++ socks5_version ∷ user_pass_auth ∷ [])
                ++ user_auth_version ∷ user_auth_failure ∷ [])
              k,
        )
  unfolding authenticate negotiated user_pass_exchange check_credentials check_user accepted write
      user_pass_auth_failure
  authenticate_refuses methods username pass rest w k user e offered parses refuses = rw (
    read_methods methods
        (user_auth_version ∷ length username ∷ (username ++ length pass ∷ (pass ++ rest))) w
        (suc (suc k)),
    offered,
    read_back username pass rest (w ++ socks5_version ∷ user_pass_auth ∷ []) (suc k),
    parses,
    refuses,
  )

  -- A client that does not offer the method that the server wants is turned away with 0xFF,
  -- whether or not authentication is on.
  pub authenticate_no_method :
      (enable_auth : Bool) (methods rest w : Str) (k : ℕ)
      → has_method (if enable_auth then user_pass_auth else no_auth) methods ≡ false
      → authenticate handle_user_auth enable_auth
          (at (length methods ∷ (methods ++ rest)) w (suc k))
        ≡ (err no_auth_method, at rest (w ++ socks5_version ∷ no_acceptable ∷ []) k)
  unfolding authenticate negotiated no_acceptable_auth write
  authenticate_no_method enable_auth methods rest w k missing =
      rw (read_methods methods rest w (suc k), missing)
