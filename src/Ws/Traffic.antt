-- ===== src/Ws/Traffic.antt =====
-- ippop/ws/usertraffic.go: the bytes that users have moved and that are not stored yet.
pub mod Totals
use titan_ipoverlay.Prelude.{
  ℕ, ◌-◌, ◌*◌, ◌/◌, Option, none, some, List, [], ◌∷◌, leb, if◌then◌else◌,
}
use titan_ipoverlay.Prelude.Str.{Str}
use titan_ipoverlay.Prelude.Assoc.{Assoc, lookup, insert}
use titan_ipoverlay.Prelude.Int.{ℤ, pos, negsuc, ◌+ℤ◌}
use titan_ipoverlay.Prelude.Decimal.{wrap64}

-- A missing key reads as 0.
abbrev pub value_or_zero : Option ℤ → ℤ
value_or_zero none = pos 0
value_or_zero (some z) = z

unfoldable pub add : Str → ℤ → Assoc ℤ → Assoc ℤ
add user traffic users = insert user (wrap64 (value_or_zero (lookup user users) +ℤ traffic)) users

-- (traffic / 1024) * 1024 of a count that is at least 1024.
sent_part : ℤ → Option ℤ
sent_part (pos n) = if leb 1024 n then some (pos ((n / 1024) * 1024)) else none
sent_part (negsuc n) = none

kept_part : ℤ → ℤ
kept_part (pos n) = if leb 1024 n then pos (n - (n / 1024) * 1024) else pos n
kept_part (negsuc n) = negsuc n

add_sent : Str → Option ℤ → Assoc ℤ → Assoc ℤ
add_sent user none m = m
add_sent user (some z) m = (user, z) ∷ m

-- What snapshotAndClear gives, and the counts that it leaves.
unfoldable pub snapshot : Assoc ℤ → Assoc ℤ
unfolding sent_part add_sent
snapshot [] = []
snapshot ((user, traffic) ∷ m) = add_sent user (sent_part traffic) (snapshot m)

unfoldable pub clear : Assoc ℤ → Assoc ℤ
unfolding kept_part
clear [] = []
clear ((user, traffic) ∷ m) = (user, kept_part traffic) ∷ clear m
