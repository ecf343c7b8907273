-- ===== src/Socks5/Tests.antt =====
-- Runs of the handshake of ippop/socks5 on concrete clients.
use titan_ipoverlay.Socks5.Auth.Run.{authenticate_refuses}
use titan_ipoverlay.Prelude.{
  ◌≡◌, ◌&&◌, refl, true, false, some, [], ◌∷◌, ◌++◌, drop, arith, if◌then◌else◌,
}
use titan_ipoverlay.Prelude.Str.{Str, codes, str_eq}
use titan_ipoverlay.Prelude.Int.{pos}
use titan_ipoverlay.Prelude.Exec.{Result, ok, err}
use titan_ipoverlay.Socks5.Conn.{
  Error, Conn, auth_failed, user_pass_auth, write, read_byte, read_full,
}
use titan_ipoverlay.Socks5.Ip.{to4, to16, forbidden_ip}
use titan_ipoverlay.Socks5.Username.{
  User, named, read_options, parse_username, is_key, valid_session,
}
use titan_ipoverlay.Socks5.Username.Options.{read_options-fuel}
use titan_ipoverlay.Socks5.Username.Format.{format_username, parse_username-format}
use titan_ipoverlay.Socks5.Address.{reply_message, read_addr_spec, new_request, reply_socks5_client}
use titan_ipoverlay.Socks5.Address.Reply.{at, read-reply_name}
use titan_ipoverlay.Socks5.Auth.{authenticate, has_method}
use titan_ipoverlay.Socks5.Auth.Safety.{LetIn}
use titan_ipoverlay.Socks5.Auth.Run.{sign_in, authenticate_accepts}
use titan_ipoverlay.Socks5.Server.{Action, handle_tcp, Env, serve_socks5_conn}
use titan_ipoverlay.Socks5.Server.Guard.{actor, IsAllowed, serve_socks5_conn-guarded}
use titan_ipoverlay.Socks5.Samples.{sample_name, sample_parses, sample_user, split_colon, test_net}

read_options-fuel_example :
    read_options 3 (named []) (codes "zone" ∷ codes "eu" ∷ [])
    ≡ read_options 2 (named []) (codes "zone" ∷ codes "eu" ∷ [])
read_options-fuel_example =
    read_options-fuel 3 2 (named []) (codes "zone" ∷ codes "eu" ∷ []) (omega arith) (omega arith)

valid_sample : valid_session (codes "1312a838o") ≡ true
unfolding valid_session
valid_sample = refl

parse_username-format_example :
    parse_username
      (format_username (codes "alice") (codes "static") (codes "us") (codes "1312a838o") 5)
    ≡ ok sample_user
unfolding is_key str_eq
parse_username-format_example =
    parse_username-format (codes "alice") (codes "static") (codes "us") (codes "1312a838o") 5
      (omega arith) (omega arith, refl) (omega arith, refl) (omega arith, refl) valid_sample
      (omega arith)

read-reply_name_example :
    (msg : Str) × (reply_message 0 (some (record { fqdn = codes "a.example"; ip = []; port = 443 }))
      ≡ ok msg)
    × (read_addr_spec test_net (at (drop 3 msg ++ 7 ∷ []) [] 2)
        ≡ (ok (record { fqdn = codes "a.example"; ip = []; port = 443 }), at (7 ∷ []) [] 2))
read-reply_name_example =
    read-reply_name test_net 0 443 (codes "a.example") [] (7 ∷ []) [] 2 (omega arith) (omega arith)
      (omega arith)

-- A handler that lets one user in.
abbrev one_user : Str → Str → Result Error (Unit {0})
one_user login pass =
    if str_eq login (codes "alice") && str_eq pass (codes "secret") then ok tt else err auth_failed

alice_in : one_user (codes "alice") (codes "secret") ≡ ok tt
unfolding str_eq
alice_in = refl

no_user : Str → Str → Result Error (Unit {0})
no_user login pass = err auth_failed

offers : has_method user_pass_auth (0 ∷ 2 ∷ []) ≡ true
unfolding has_method
offers = refl

authenticate_accepts_example :
    authenticate one_user true
      (at (sign_in one_user (0 ∷ 2 ∷ []) sample_name (codes "secret") (5 ∷ [])) [] 2)
    ≡ (ok (some sample_user), at (5 ∷ []) (5 ∷ 2 ∷ 1 ∷ 0 ∷ []) 0)
authenticate_accepts_example =
    authenticate_accepts one_user (0 ∷ 2 ∷ []) sample_name (codes "secret") (5 ∷ []) [] 0
      sample_user offers sample_parses alice_in

no_password_method : has_method user_pass_auth (0 ∷ []) ≡ false
unfolding has_method
no_password_method = refl

abbrev test_env : Env
test_env = record {
  enable_auth = true;
  buffered = 0;
  remote_addr = codes "8.8.8.8:4000";
  local_ip = 8 ∷ 8 ∷ 4 ∷ 4 ∷ [];
  local_port = 1080;
}

-- A client that signs in and asks for a connection to 8.8.8.8:53.
abbrev test_client : Conn
test_client =
    at
      (5
        ∷ sign_in one_user (0 ∷ 2 ∷ []) sample_name (codes "secret")
            (5 ∷ 1 ∷ 0 ∷ 1 ∷ 8 ∷ 8 ∷ 8 ∷ 8 ∷ 0 ∷ 53 ∷ []))
      [] 3

abbrev test_action : Action
test_action = handle_tcp (record {
  domain_name = codes "8.8.8.8";
  port = 53;
  extra_bytes = [];
  username = codes "alice";
  session = codes "1312a838o";
  sess_time = pos 300000000000;
})

test_served : (serve_socks5_conn test_net test_env one_user test_client).0 ≡ ok test_action
unfolding serve_socks5_conn read_byte read_full new_request read_addr_spec reply_socks5_client write
    split_colon str_eq to4 to16 forbidden_ip
test_served =
    rw
      (authenticate_accepts one_user (0 ∷ 2 ∷ []) sample_name (codes "secret")
        (5 ∷ 1 ∷ 0 ∷ 1 ∷ 8 ∷ 8 ∷ 8 ∷ 8 ∷ 0 ∷ 53 ∷ []) [] 1 sample_user offers sample_parses
        alice_in)
      refl

serve_socks5_conn-guarded_example :
    (user : User) × (input : Str) × (test_client.input ≡ 5 ∷ input)
    × LetIn one_user input user
    × (actor test_action ≡ user.username)
    × IsAllowed test_net test_action
serve_socks5_conn-guarded_example =
    serve_socks5_conn-guarded test_net test_env one_user test_client test_action refl test_served

authenticate_refuses_example :
    authenticate no_user true
      (at (sign_in no_user (0 ∷ 2 ∷ []) sample_name (codes "secret") (5 ∷ [])) [] 2)
    ≡ (err auth_failed, at (5 ∷ []) (5 ∷ 2 ∷ 1 ∷ 1 ∷ []) 0)
unfolding no_user
authenticate_refuses_example =
    authenticate_refuses no_user (0 ∷ 2 ∷ []) sample_name (codes "secret") (5 ∷ []) [] 0 sample_user
      auth_failed offers sample_parses refl
