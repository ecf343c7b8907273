-- ===== src/Model/Traffic/Maps.antt =====
-- The maps that the list calls of ippop/model/traffic5min.go, traffichour.go and trafficday.go
-- return.
use titan_ipoverlay.Prelude.{ℕ, ◌*◌, ◌&&◌, Option, none, some, List, [], ◌∷◌, if◌then◌else◌}
use titan_ipoverlay.Prelude.Str.{Str}
use titan_ipoverlay.Prelude.Int.{ℤ, leb_ℤ}
use titan_ipoverlay.Prelude.Exec.{Result, ok, err}
use titan_ipoverlay.Model.Traffic.{
  Sets, StatError, five_minutes, one_hour, one_day, list_user_traffic, list_all_traffic,
}

-- A Go map from the start of a period to its kilobytes, and the map after assignments.
abbrev pub TrafficMap : Type 0
TrafficMap = ℤ → Option ℕ

unfoldable pub assign : ℤ → ℕ → TrafficMap → TrafficMap
assign ts kb m t = if leb_ℤ ts t && leb_ℤ t ts then some kb else m t

assign_all : List (ℤ × ℕ) → TrafficMap → TrafficMap
unfolding assign
assign_all [] m = m
assign_all ((ts, kb) ∷ entries) m = assign_all entries (assign ts kb m)

unfoldable pub traffic_map : Result StatError (List (ℤ × ℕ)) → Result StatError TrafficMap
unfolding assign_all
traffic_map (err e) = err e
traffic_map (ok entries) = ok (assign_all entries (λ t. none))

module _ (r : Sets StatError) where
  unfoldable pub list_user_traffic_per_5_min : Str → ℤ → ℤ → r.Db → Result StatError TrafficMap
  unfolding traffic_map list_user_traffic
  list_user_traffic_per_5_min user start stop db =
      traffic_map (list_user_traffic r five_minutes user start stop db)

  unfoldable pub list_user_traffic_per_hour : Str → ℤ → ℤ → r.Db → Result StatError TrafficMap
  unfolding traffic_map list_user_traffic
  list_user_traffic_per_hour user start stop db =
      traffic_map (list_user_traffic r one_hour user start stop db)

  unfoldable pub list_user_traffic_per_day : Str → ℤ → ℤ → r.Db → Result StatError TrafficMap
  unfolding traffic_map list_user_traffic
  list_user_traffic_per_day user start stop db =
      traffic_map (list_user_traffic r one_day user start stop db)

  unfoldable pub list_all_traffic_per_5_min : ℕ → ℕ → r.Db → Result StatError TrafficMap
  unfolding traffic_map list_all_traffic
  list_all_traffic_per_5_min now minutes db =
      traffic_map (list_all_traffic r five_minutes now (minutes * 60) db)

  unfoldable pub list_all_traffic_per_hour : ℕ → ℕ → r.Db → Result StatError TrafficMap
  unfolding traffic_map list_all_traffic
  list_all_traffic_per_hour now hours db =
      traffic_map (list_all_traffic r one_hour now (hours * 3600) db)

  unfoldable pub list_all_traffic_per_day : ℕ → ℕ → r.Db → Result StatError TrafficMap
  unfolding traffic_map list_all_traffic
  list_all_traffic_per_day now days db =
      traffic_map (list_all_traffic r one_day now (days * 24 * 3600) db)
