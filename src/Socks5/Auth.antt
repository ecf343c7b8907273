-- ===== src/Socks5/Auth.antt =====
-- The method negotiation and the user/password exchange of ippop/socks5/socks5.go:
-- `authenticate`, `readAuthMethods`, `readUserAndPassword` and the replies they send.
pub mod Input
pub mod Safety
pub mod Run
use titan_ipoverlay.Prelude.{
  ℕ, Bool, true, false, ◌||◌, Option, none, some, [], ◌∷◌, ◌==◌, if◌then◌else◌,
}
use titan_ipoverlay.Prelude.Str.{Str}
use titan_ipoverlay.Prelude.Exec.{Result, ok, err, pure, raise, ◌>>=◌, ◌>>◌}
use titan_ipoverlay.Socks5.Conn.{
  Error, Conn, Io, read_full, read_byte, write, socks5_version, no_auth, user_pass_auth,
  user_auth_version, user_auth_success, user_auth_failure, no_acceptable, no_auth_method,
  auth_failed, bad_auth_version,
}
use titan_ipoverlay.Socks5.Username.{User, parse_username}

unfoldable pub read_auth_methods : Io Str
read_auth_methods = do num_methods ← read_byte; read_full num_methods

unfoldable pub no_acceptable_auth : Io (Option User)
no_acceptable_auth c = (err no_auth_method, (write (socks5_version ∷ no_acceptable ∷ []) c).1)

unfoldable pub user_pass_auth_failure : Io (Option User)
user_pass_auth_failure = do write (user_auth_version ∷ user_auth_failure ∷ []); raise auth_failed

user_pass_auth_success : Io (Unit {0})
user_pass_auth_success = write (user_auth_version ∷ user_auth_success ∷ [])

no_auth_reply : Io (Option User)
no_auth_reply = do write (socks5_version ∷ no_auth ∷ []); pure none

reply_client_need_password : Io (Unit {0})
reply_client_need_password = write (socks5_version ∷ user_pass_auth ∷ [])

check_auth_version : Str → Io ℕ
check_auth_version (version ∷ user_len ∷ rest) =
    if version == user_auth_version then pure user_len else raise bad_auth_version
check_auth_version _ = raise bad_auth_version

unfoldable pub read_user_and_password : Io (Str × Str)
unfolding check_auth_version
read_user_and_password = do
  header ← read_full 2
  user_len ← check_auth_version header
  user ← read_full user_len
  pass_len ← read_byte
  pass ← read_full pass_len
  pure (user, pass)

unfoldable pub has_method : ℕ → Str → Bool
has_method m [] = false
has_method m (x ∷ xs) = (x == m) || has_method m xs

auth_method : Bool → ℕ
auth_method enable_auth = if enable_auth then user_pass_auth else no_auth

-- `handle_user_auth` is the handler's HandleUserAuth.
module _ (handle_user_auth : Str → Str → Result Error (Unit {0})) where
  accepted : User → Result Error (Unit {0}) → Io (Option User)
  unfolding user_pass_auth_success
  accepted user (err e) = user_pass_auth_failure
  accepted user (ok t) = do user_pass_auth_success; pure (some user)

  check_user : Str → Result Error User → Io (Option User)
  check_user pass (err e) = user_pass_auth_failure
  check_user pass (ok user) = accepted user (handle_user_auth user.username pass)

  check_credentials : Result Error (Str × Str) → Io (Option User)
  check_credentials (err e) = user_pass_auth_failure
  check_credentials (ok (username, pass)) = check_user pass (parse_username username)

  -- The error of the read is not passed on, so that the failure is answered.
  user_pass_exchange : Io (Option User)
  unfolding reply_client_need_password
  user_pass_exchange = do
    reply_client_need_password
    λ c. let (r, c') = read_user_and_password c in check_credentials r c'

  -- With the method that the server wants: whether the client has offered it, and how it goes on.
  negotiated : Bool → Bool → Io (Option User)
  unfolding no_auth_reply user_pass_exchange
  negotiated enable_auth false = no_acceptable_auth
  negotiated true true = user_pass_exchange
  negotiated false true = no_auth_reply

  -- `enable_auth` is opts.EnableAuth; without a user the request stays anonymous.
  pub authenticate : Bool → Io (Option User)
  unfolding negotiated auth_method
  authenticate enable_auth = do
    methods ← read_auth_methods
    negotiated enable_auth (has_method (auth_method enable_auth) methods)
