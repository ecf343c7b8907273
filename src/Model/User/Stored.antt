-- ===== src/Model/User/Stored.antt =====
-- A stored user is read back as it was.
use titan_ipoverlay.Prelude.{◌≡◌, refl, true, arith, some}
use titan_ipoverlay.Prelude.Str.{str_eq}
use titan_ipoverlay.Prelude.Decimal.{InInt64}
use titan_ipoverlay.StructMap.{has_tag}
use titan_ipoverlay.StructMap.RoundTrip.{tagged, AllStorable, map_to_struct-struct_to_map}
use titan_ipoverlay.Model.{UserInfo, user_struct, user_to_map, map_to_user}

-- Go holds every number of a user in 64 bits.
pub record InRange (u : UserInfo) : Type 0 where
  pub start_time : InInt64 u.start_time
  pub end_time : InInt64 u.end_time
  pub total_traffic : InInt64 u.total_traffic
  pub current_traffic : InInt64 u.current_traffic
  pub top_bandwidth : InInt64 u.top_bandwidth
  pub route_mode : InInt64 u.route_mode
  pub update_route_interval_minutes : InInt64 u.update_route_interval_minutes
  pub update_route_utc_minute_of_day : InInt64 u.update_route_utc_minute_of_day
  pub last_route_switch_time : InInt64 u.last_route_switch_time
  pub upload_rate_limit : InInt64 u.upload_rate_limit
  pub download_rate_limit : InInt64 u.download_rate_limit

user_struct-tagged : (u : UserInfo) → tagged (user_struct u) ≡ true
unfolding user_struct tagged has_tag str_eq
user_struct-tagged u = refl

user_struct-AllStorable : (u : UserInfo) → InRange u → AllStorable (user_struct u)
unfolding user_struct
user_struct-AllStorable u h = omega arith

-- A user whose numbers fit in 64 bits is read back from the map that it is stored as.
pub map_to_user-user_to_map : (u : UserInfo) → InRange u → map_to_user (user_to_map u) ≡ some u
unfolding map_to_user user_to_map
map_to_user-user_to_map u h = rw (
    map_to_struct-struct_to_map (user_struct u) (user_struct-tagged u)
      (user_struct-AllStorable u h))
