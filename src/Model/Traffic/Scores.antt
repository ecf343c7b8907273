-- ===== src/Model/Traffic/Scores.antt =====
-- How the scores of ippop/model/traffic5min.go, traffichour.go and trafficday.go hold a period and
-- its traffic.
use titan_ipoverlay.Prelude.{ℕ, ◌+◌, ◌/◌, ◌%◌, ◌^◌, ◌≤◌, ◌<◌, ◌≡◌, arith}
use titan_ipoverlay.Model.Traffic.{
  Period, five_minutes, one_hour, one_day, score_base, floor_to, min_score,
}

-- One of the three periods.
pub data Used : Period → Type 0 where
  per_5_min : Used five_minutes
  per_hour : Used one_hour
  per_day : Used one_day

-- Until 2106, the score of a period with less traffic than its bits hold is a whole number that a
-- float64 holds exactly; its low bits are the traffic and its high bits the period; and what is
-- removed as too old has a lower score.
pub score_base-fits :
    (p : Period) (now kb : ℕ)
    → Used p
    → now < 2 ^ 32
    → p.keep ≤ now
    → kb < 2 ^ p.bits
    → (score_base p now + kb < 2 ^ 53)
      × ((score_base p now + kb) % 2 ^ p.bits ≡ kb)
      × ((score_base p now + kb) / 2 ^ p.bits ≡ floor_to p now)
      × (min_score p now < score_base p now)
unfolding score_base floor_to min_score
score_base-fits _ now kb per_5_min h k b = (omega arith, omega arith, omega arith, omega arith)
score_base-fits _ now kb per_hour h k b = (omega arith, omega arith, omega arith, omega arith)
score_base-fits _ now kb per_day h k b = (omega arith, omega arith, omega arith, omega arith)
