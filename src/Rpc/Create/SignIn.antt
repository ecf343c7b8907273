-- ===== src/Rpc/Create/SignIn.antt =====
-- A user that CreateUser has created signs in at the SOCKS5 server.
use titan_ipoverlay.Prelude.{ℕ, ◌≡◌, refl, ap, ◌∙◌, false, some, inr}
use titan_ipoverlay.Prelude.Str.{Str}
use titan_ipoverlay.Prelude.Int.{ℤ, ◌≤ℤ◌}
use titan_ipoverlay.Prelude.Exec.{ok}
use titan_ipoverlay.Redis.{Redis}
use titan_ipoverlay.Model
use titan_ipoverlay.Model.{UserInfo, redis_key_user}
use titan_ipoverlay.Model.User.{user_of}
use titan_ipoverlay.Model.User.Stored.{InRange}
use titan_ipoverlay.Model.User.Saved.{user_of-merge}
use titan_ipoverlay.Model.Bind.Outcomes.{Reliable}
use titan_ipoverlay.Socks5.Username.{named, parse_username}
use titan_ipoverlay.Ws.SignIn.{UserCache, handle_user_auth, delete_user_from_cache}
use titan_ipoverlay.Ws.SignIn.Checks.{
  sign_in_outcome, check_user-MaySignIn, handle_user_auth-delete_user_from_cache,
}
use titan_ipoverlay.Rpc.{CreateUserReq, CreateUserResp, Service}
use titan_ipoverlay.Rpc.Create.{create_user, new_user}
use titan_ipoverlay.Rpc.Create.Named.{create_user-named}
use titan_ipoverlay.Rpc.Create.Bound.{is_custom, create_user-RoutedReply}
use titan_ipoverlay.Rpc.Create.Binding.{Saved}

module _ (r : Redis Model.Error) (answers : Reliable r) (cache : UserCache) where
  Saved-signs_in :
      (md5_hex : Str → Str) (later : ℤ) (password : Str) (u : UserInfo) (w : cache.Store)
      (db : r.Db)
      → Saved (r.view db) u
      → InRange u
      → sign_in_outcome md5_hex later u.user_name password (ok (some u)) ≡ ok tt
      → (handle_user_auth r cache md5_hex later u.user_name password
          (delete_user_from_cache r cache u.user_name (w, db))).0
        ≡ ok tt
  Saved-signs_in md5_hex later password u w db (m, e) range h =
      handle_user_auth-delete_user_from_cache r answers cache md5_hex later u.user_name password
        (w, db)
      ∙ ap (sign_in_outcome md5_hex later u.user_name password)
          (ap user_of e ∙ user_of-merge u m range)
      ∙ h

  -- If CreateUser succeeds for a request whose route is not of the custom mode, where the numbers
  -- of the user fit in 64 bits, and Redis answers, then the SOCKS5 server reads the user's name, sent without options, as that user, and HandleUserAuth lets it in
  -- with the password of the request at any time of the reply's limit, if the cache has no user of
  -- the name.
  pub create_user-signs_in :
      (md5_hex : Str → Str) (now next_month : ℕ) (req : CreateUserReq) (s : Service r)
      (w : cache.Store) (later : ℤ) {resp : CreateUserResp}
      → is_custom req.route ≡ false
      → InRange (new_user r md5_hex now next_month req resp.traffic_limit resp.route)
      → (create_user r md5_hex now next_month req s).0 ≡ ok resp
      → resp.traffic_limit.start_time ≤ℤ later
      → later ≤ℤ resp.traffic_limit.end_time
      → (parse_username req.user_name ≡ ok (named req.user_name))
        × ((handle_user_auth r cache md5_hex later req.user_name req.password (
              delete_user_from_cache r cache req.user_name
                (w, (create_user r md5_hex now next_month req s).1.db))).0
            ≡ ok tt)
  unfolding new_user
  create_user-signs_in md5_hex now next_month req s w later {resp = resp} c range h from upto =
      let u = new_user r md5_hex now next_month req resp.traffic_limit resp.route in
      let db = (create_user r md5_hex now next_month req s).1.db in
      let (routed, left, kept) = create_user-RoutedReply r md5_hex now next_month req s c h in
      (
        create_user-named r md5_hex now next_month req s h,
        Saved-signs_in md5_hex later req.password u w db routed.saved range (
            (check_user-MaySignIn md5_hex later req.password u).1
              (refl, refl, from, upto, inr left)),
      )
