-- ===== src/Model/Traffic/Tests.antt =====
-- Runs of ippop/model/traffic5min.go on concrete data.
use titan_ipoverlay.Prelude.{ℕ, ◌≡◌, ◌+◌, ◌%◌, ◌/◌, ◌^◌, ◌<◌, refl, inl, List, [], ◌∷◌, arith}
use mathlib.Core.List.{Mem}
use titan_ipoverlay.Prelude.Str.{codes, str_eq}
use titan_ipoverlay.Prelude.Decimal.{show_nat, atoi_value, parse_int}
use titan_ipoverlay.Prelude.Int.{ℤ, pos}
use titan_ipoverlay.Model.Traffic.{
  five_minutes, score_base, floor_to, min_score, add_users_traffic, list_user_traffic, run,
  traffic_commands, decode,
}
use titan_ipoverlay.Model.Traffic.Scores.{per_5_min, score_base-fits}
use titan_ipoverlay.Model.Traffic.Adds.{add_users_traffic-listed}
use titan_ipoverlay.Model.Traffic.Samples.{sets, sets-Documented}

score_base-fits_example :
    (score_base five_minutes 1700000000 + 12 < 2 ^ 53)
    × ((score_base five_minutes 1700000000 + 12) % 2 ^ 29 ≡ 12)
    × ((score_base five_minutes 1700000000 + 12) / 2 ^ 29 ≡ floor_to five_minutes 1700000000)
    × (min_score five_minutes 1700000000 < score_base five_minutes 1700000000)
score_base-fits_example =
    score_base-fits five_minutes 1700000000 12 per_5_min (omega arith) (omega arith) (omega arith)

-- The sample server gives a member once for each command that named it.
abbrev listing : List (ℤ × ℕ)
listing = (pos 1699999800, 4) ∷ (pos 1699999800, 4) ∷ (pos 1699999800, 4) ∷ (pos 1699999800, 4) ∷ []

add_users_traffic-listed_example : Mem {A = ℤ × ℕ} (pos 1699999800, 4) listing
unfolding list_user_traffic add_users_traffic run traffic_commands str_eq show_nat decode atoi_value
    parse_int
add_users_traffic-listed_example =
    add_users_traffic-listed sets sets-Documented five_minutes 1700000000 (codes "u") [] [] 4096 0
      1700000000 1700000000 [] listing per_5_min (omega arith) (omega arith) tt tt (omega arith)
      (inl (refl, refl)) (omega arith) (omega arith) (omega arith) refl refl
