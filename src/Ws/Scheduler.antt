-- ===== src/Ws/Scheduler.antt =====
-- ippop/ws/userroutescheduler.go: `isUserNeedToSwithRoute`. `now` is the time in nanoseconds since
-- 1970, in UTC.
pub mod Daily
use titan_ipoverlay.Prelude.{ℕ, ◌*◌, ◌/◌, Bool, true, false, ◌&&◌, if◌then◌else◌, ◌==◌}
use titan_ipoverlay.Prelude.Int.{ℤ, pos, negsuc, ◌+ℤ◌, ltb_ℤ, scale}
use titan_ipoverlay.Prelude.Decimal.{wrap64}
use titan_ipoverlay.Model.{UserInfo}

-- RouteModeTimed
is_timed : ℤ → Bool
is_timed (pos n) = n == 3
is_timed (negsuc n) = false

-- time.Duration(minutes) * time.Minute, in 64 bits.
abbrev pub duration_of_minutes : ℤ → ℤ
duration_of_minutes minutes = wrap64 (scale 60000000000 minutes)

-- time.Unix(seconds, 0)
abbrev pub time_of_seconds : ℤ → ℤ
time_of_seconds seconds = scale 1000000000 seconds

abbrev pub day_start : ℕ → ℤ
day_start now = pos ((now / 86400000000000) * 86400000000000)

unfoldable pub need_switch : ℕ → UserInfo → Bool
unfolding is_timed
need_switch now user =
    let last_update = time_of_seconds user.last_route_switch_time in
    let next_switch = last_update +ℤ duration_of_minutes user.update_route_interval_minutes in
    let switch_time = day_start now +ℤ duration_of_minutes user.update_route_utc_minute_of_day in
    if is_timed user.route_mode
    then (if ltb_ℤ (pos 0) user.update_route_interval_minutes
        then ltb_ℤ next_switch (pos now)
        else (ltb_ℤ last_update switch_time && ltb_ℤ switch_time (pos now)))
    else false
