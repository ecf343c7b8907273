-- ===== src/Ws/Tests.antt =====
-- Runs of the rules, the traffic, the scheduler and the sign-in of ippop/ws on concrete data.
use titan_ipoverlay.Prelude.{
  ◌/◌, ◌≡◌, ◌↔◌, refl, true, false, ◌&&◌, none, some, List, [], ◌∷◌, arith, ltb,
}
use titan_ipoverlay.Prelude.Str.{Str, codes, str_eq}
use titan_ipoverlay.Prelude.Int.{pos, ◌+ℤ◌}
use titan_ipoverlay.Prelude.Exec.{ok}
use titan_ipoverlay.Prelude.Assoc.{or_else}
use titan_ipoverlay.Prelude.Decimal.{wrap64}
use titan_ipoverlay.Redis.{View}
use titan_ipoverlay.Redis.Answering.{answering}
use titan_ipoverlay.Model.{Error, redis_failed, UserInfo, new_user}
use titan_ipoverlay.Model.User.{user_of}
use titan_ipoverlay.Ws.Rules.{FilterRule, rules_to_map, is_deny}
use titan_ipoverlay.Ws.Rules.Verdict.{last_rule, verdict, Configured, is_deny-rules_to_map}
use titan_ipoverlay.Ws.Traffic.Totals.{Event, moved, taken, Conserved, counts_after-Conserved}
use titan_ipoverlay.Ws.Scheduler.{need_switch}
use titan_ipoverlay.Ws.Scheduler.Daily.{Daily, minute_of_day, need_switch-once}
use titan_ipoverlay.Ws.SignIn.{check_user, handle_user_auth, delete_user_from_cache}
use titan_ipoverlay.Ws.SignIn.Checks.{
  MaySignIn, check_user-MaySignIn, sign_in_outcome, handle_user_auth-delete_user_from_cache,
}
use titan_ipoverlay.Ws.Samples.{test_user, test_cache}

abbrev test_rules : List FilterRule
test_rules =
    record { kind = codes "domain"; value = codes "a.example"; action = codes "deny" }
    ∷ record { kind = codes "port"; value = codes "25"; action = codes "deny" }
    ∷ record { kind = codes "domain"; value = codes "a.example"; action = codes "allow" }
    ∷ []

test_rules-Configured : Configured test_rules
unfolding str_eq
test_rules-Configured = ((refl, refl), ((refl, refl), ((refl, refl), tt)))

is_deny-rules_to_map_example :
    is_deny
      (record { rules = rules_to_map test_rules; default_action = codes "allow" })
      (codes "a.example")
      (codes "25")
    ≡ some (
        verdict
          (codes "allow")
          (or_else (last_rule (codes "a.example") test_rules) (last_rule (codes "25") test_rules)))
is_deny-rules_to_map_example =
    is_deny-rules_to_map test_rules (codes "allow") (codes "a.example") (codes "25")
      test_rules-Configured

abbrev test_events : List Event
test_events =
    moved (codes "alice") 100 ∷ taken ∷ moved (codes "bob") 10 ∷ moved (codes "alice") 5000 ∷ []

counts_after-Conserved_example : Conserved (codes "alice") test_events
unfolding str_eq
counts_after-Conserved_example = counts_after-Conserved (codes "alice") test_events (omega arith)

-- Route mode 3, at 02:30 UTC.
abbrev daily_user : UserInfo
daily_user = record new_user {
  user_name = codes "alice";
  route_mode = pos 3;
  update_route_utc_minute_of_day = pos 150;
  last_route_switch_time = pos 100;
}

daily_user-Daily : Daily daily_user 150
daily_user-Daily = record {
  mode = refl;
  no_interval = refl;
  at_minute = refl;
  in_day = omega arith;
}

test_due : need_switch 9000000000001 daily_user ≡ true
unfolding need_switch ◌+ℤ◌ wrap64
test_due = refl

need_switch-once_example :
    need_switch 95400000000001
      (record daily_user { last_route_switch_time = pos (9000000000001 / 1000000000) })
    ≡ (ltb (9000000000001 / 86400000000000) (95400000000001 / 86400000000000)
        && ltb (minute_of_day 95400000000001 150) 95400000000001)
need_switch-once_example =
    need_switch-once 9000000000001 95400000000001 100 150 daily_user daily_user-Daily refl test_due
      (omega arith)

abbrev test_md5 : Str → Str
test_md5 s = s

check_user-MaySignIn_example :
    (check_user test_md5 (pos 1700000000) (codes "secret") test_user ≡ ok tt)
    ↔ MaySignIn test_md5 (pos 1700000000) (codes "secret") test_user
check_user-MaySignIn_example =
    check_user-MaySignIn test_md5 (pos 1700000000) (codes "secret") test_user

-- No user is stored.
abbrev no_data : View
no_data = record { hash = λ k. []; zset = λ k m. none; members = λ k m. false }

handle_user_auth-delete_user_from_cache_example :
    (handle_user_auth
      (answering Error redis_failed)
      test_cache
      test_md5
      (pos 0)
      (codes "alice")
      (codes "secret")
      (delete_user_from_cache
        (answering Error redis_failed)
        test_cache
        (codes "alice")
        (some (codes "alice", test_user), no_data))).0
    ≡ sign_in_outcome test_md5 (pos 0) (codes "alice") (codes "secret") (user_of [])
handle_user_auth-delete_user_from_cache_example =
    handle_user_auth-delete_user_from_cache (answering Error redis_failed) (λ cs v. refl) test_cache
      test_md5 (pos 0) (codes "alice") (codes "secret") (some (codes "alice", test_user), no_data)
