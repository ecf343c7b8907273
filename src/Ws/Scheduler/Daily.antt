-- ===== src/Ws/Scheduler/Daily.antt =====
-- A daily switch takes place once a day.
use titan_ipoverlay.Prelude.{ℕ, ◌+◌, ◌*◌, ◌/◌, ◌≤◌, ◌<◌, ◌≡◌, refl, ◌∙◌, true, ◌&&◌, arith, ltb}
use titan_ipoverlay.Prelude.Int.{pos, ◌+ℤ◌}
use titan_ipoverlay.Prelude.Decimal.{wrap64_in_range}
use titan_ipoverlay.Model.{UserInfo}
use titan_ipoverlay.Ws.Scheduler.{duration_of_minutes, need_switch}

-- A user whose route is switched once a day, at a minute of the day.
pub record Daily (user : UserInfo) (minute : ℕ) : Type 0 where
  pub mode : user.route_mode ≡ pos 3
  pub no_interval : user.update_route_interval_minutes ≡ pos 0
  pub at_minute : user.update_route_utc_minute_of_day ≡ pos minute
  pub in_day : minute < 1440

-- The minute of the day that the time stands in, in nanoseconds since 1970.
abbrev pub minute_of_day : ℕ → ℕ → ℕ
minute_of_day now minute = (now / 86400000000000) * 86400000000000 + minute * 60000000000

minutes_fit :
    (minute : ℕ) → minute < 1440 → duration_of_minutes (pos minute) ≡ pos (minute * 60000000000)
minutes_fit minute h = wrap64_in_range (pos (minute * 60000000000)) (omega arith, omega arith)

need_switch-Daily :
    (now last minute : ℕ) (user : UserInfo)
    → Daily user minute
    → user.last_route_switch_time ≡ pos last
    → need_switch now user
      ≡ (ltb (last * 1000000000) (minute_of_day now minute) && ltb (minute_of_day now minute) now)
unfolding need_switch ◌+ℤ◌
need_switch-Daily now last minute user d e =
    rw (d.mode, d.no_interval, d.at_minute, e, minutes_fit minute d.in_day) (ground arith)

due_again :
    (now later minute last : ℕ)
    → minute < 1440
    → now ≤ later
    → (ltb (last * 1000000000) (minute_of_day now minute) && ltb (minute_of_day now minute) now)
      ≡ true
    → (ltb ((now / 1000000000) * 1000000000) (minute_of_day later minute)
        && ltb (minute_of_day later minute) later)
      ≡ (ltb (now / 86400000000000) (later / 86400000000000)
          && ltb (minute_of_day later minute) later)
due_again now later minute last h le due = ground arith

-- After a daily switch, which stores the second in which it took place, the route is due again on a
-- later day once its minute has passed, and at no time of the same day.
pub need_switch-once :
    (now later last minute : ℕ) (user : UserInfo)
    → Daily user minute
    → user.last_route_switch_time ≡ pos last
    → need_switch now user ≡ true
    → now ≤ later
    → need_switch later (record user { last_route_switch_time = pos (now / 1000000000) }) ≡ (
        ltb (now / 86400000000000) (later / 86400000000000)
        && ltb (minute_of_day later minute) later)
need_switch-once now later last minute user d e due le =
    need_switch-Daily later (now / 1000000000) minute
      (record user { last_route_switch_time = pos (now / 1000000000) })
      (record {
        mode = d.mode;
        no_interval = d.no_interval;
        at_minute = d.at_minute;
        in_day = d.in_day;
      })
      refl
    ∙ due_again now later minute last d.in_day le
        (rw (need_switch-Daily now last minute user d e) at due)
