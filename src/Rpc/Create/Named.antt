-- ===== src/Rpc/Create/Named.antt =====
-- What CreateUser has checked when it succeeds, and the names it lets through.
use titan_ipoverlay.Prelude.{ℕ, ◌≡◌, refl, ◌∙◌, Bool, true, false, [], ◌∷◌, arith, if◌then◌else◌}
use titan_ipoverlay.Prelude.Str.{Str}
use titan_ipoverlay.Prelude.Exec.{ok, err, lift, ◌>>◌, bind-eq-ok}
use titan_ipoverlay.Redis.{Redis}
use titan_ipoverlay.Model
use titan_ipoverlay.Model.{UserInfo}
use titan_ipoverlay.Model.User.{get_user}
use titan_ipoverlay.Socks5.Username.{named, parse_username}
use titan_ipoverlay.Socks5.Username.Options.{NoDash}
use titan_ipoverlay.Socks5.Username.Format.{parse_username-plain}
use titan_ipoverlay.Rpc.{bad_user_name, CreateUserReq, CreateUserResp, Service, on_db}
use titan_ipoverlay.Rpc.Create.{contains_dash, check_name, absent, create_user, create_checked}

contains_dash-NoDash : (s : Str) → contains_dash s ≡ false → NoDash s
unfolding contains_dash
contains_dash-NoDash [] h = tt
contains_dash-NoDash (c ∷ cs) h = ground (arith, contains_dash-NoDash cs)

module _ (r : Redis Model.Error) (md5_hex : Str → Str) (now next_month : ℕ) where
  -- What has passed before CreateUser stores anything.
  pub create_user-checked :
      (req : CreateUserReq) (s : Service r) {resp : CreateUserResp}
      → (create_user r md5_hex now next_month req s).0 ≡ ok resp
      → let t = (on_db r (get_user r req.user_name) s).1 in
        ((create_checked r md5_hex now next_month req req.route t).0 ≡ ok resp)
        × (contains_dash req.user_name ≡ false)
        × ((create_user r md5_hex now next_month req s).1
            ≡ (create_checked r md5_hex now next_month req req.route t).1)
  unfolding create_user absent check_name
  create_user-checked req s {resp = resp} h =
      let checked = create_checked r md5_hex now next_month req req.route in
      let t = (on_db r (get_user r req.user_name) s).1 in
      let named_part = (do lift (check_name r md5_hex now next_month req.user_name); checked) in
      let (found, e, k, q) =
        bind-eq-ok (on_db r (get_user r req.user_name))
          (λ found. do lift (absent r md5_hex now next_month req.user_name found); named_part) s
          h in
      let (u, e', k', q') =
        bind-eq-ok (lift (absent r md5_hex now next_month req.user_name found)) (λ u. named_part) t
          k in
      let (w, e'', k'', q'') =
        bind-eq-ok (lift (check_name r md5_hex now next_month req.user_name)) (λ u. checked) t k' in
      (k'', go (contains_dash req.user_name) e'', q ∙ q' ∙ q'')
    where
      go :
          (b : Bool) {w : Unit {0}}
          → (if b then err (bad_user_name req.user_name) else ok tt) ≡ ok w
          → b ≡ false
      go true g = absurd (cc g)
      go false g = refl

  -- If CreateUser succeeds, the SOCKS5 server reads the user's name, sent without options, as that
  -- user.
  pub create_user-named :
      (req : CreateUserReq) (s : Service r) {resp : CreateUserResp}
      → (create_user r md5_hex now next_month req s).0 ≡ ok resp
      → parse_username req.user_name ≡ ok (named req.user_name)
  create_user-named req s h =
      parse_username-plain req.user_name
        (contains_dash-NoDash req.user_name (create_user-checked req s h).1)
