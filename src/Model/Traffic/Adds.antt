-- ===== src/Model/Traffic/Adds.antt =====
-- What is added for a user is what is listed for it.
use titan_ipoverlay.Prelude.{
  ℕ, ◌+◌, ◌*◌, ◌/◌, ◌%◌, ◌^◌, ◌≤◌, ◌<◌, ◌≡◌, refl, ap, subst, ◌∙◌, false, some, List, ◌∷◌, ◌++◌,
  map, arith,
}
use mathlib.Core.List.{Mem, mem-map_of_mem}
use titan_ipoverlay.Prelude.Str.{Str}
use titan_ipoverlay.Prelude.Assoc.{Assoc}
use titan_ipoverlay.Prelude.Int.{ℤ, pos, ltb_ℤ}
use titan_ipoverlay.Prelude.Decimal.{
  valid, show_nat, show_int, parse_int, atoi_value, parse_int-show, max_int64,
}
use titan_ipoverlay.Prelude.Exec.{Result, ok, err}
use titan_ipoverlay.Model.Traffic.{
  Sets, Documented, StatError, Period, floor_to, score_base, user_key, traffic_commands, decode,
  add_users_traffic, list_user_traffic, decoded,
}
use titan_ipoverlay.Model.Traffic.Scores.{Used, per_5_min, per_hour, per_day, score_base-fits}
use titan_ipoverlay.Model.Traffic.Pipeline.{Holds, Absent, traffic_score}

in_range :
    (p : Period) (now start stop kb : ℕ)
    → Used p
    → start ≤ now
    → now ≤ stop
    → kb < 2 ^ p.bits
    → ((start / p.seconds) * 2 ^ p.bits ≤ score_base p now + kb)
      × (score_base p now + kb ≤ (stop / p.seconds + 1) * 2 ^ p.bits)
unfolding score_base floor_to
in_range _ now start stop kb per_5_min a b h = (omega arith, omega arith)
in_range _ now start stop kb per_hour a b h = (omega arith, omega arith)
in_range _ now start stop kb per_day a b h = (omega arith, omega arith)

small_floor : (p : Period) (now : ℕ) → Used p → now < 2 ^ 32 → floor_to p now ≤ max_int64
unfolding floor_to
small_floor _ now per_5_min h = omega arith
small_floor _ now per_hour h = omega arith
small_floor _ now per_day h = omega arith

shown : (n : ℕ) → n ≤ max_int64 → parse_int (show_nat n) ≡ valid (pos n)
shown n h = unfold show_int in parse_int-show (pos n) (h, omega arith)

decode_score :
    (p : Period) (now kb : ℕ)
    → floor_to p now ≤ max_int64
    → (score_base p now + kb) % 2 ^ p.bits ≡ kb
    → decode p (show_nat (floor_to p now), score_base p now + kb)
      ≡ (pos (floor_to p now * p.seconds), kb)
unfolding decode atoi_value
decode_score p now kb small low = rw (shown (floor_to p now) small, low) refl

module _ (r : Sets StatError) (doc : Documented r) where
  listed :
      (p : Period) (user m : Str) (start stop score : ℕ) (db : r.Db) (entries : List (ℤ × ℕ))
      → r.scores db (p.user_prefix ++ user) m ≡ some score
      → (start / p.seconds) * 2 ^ p.bits ≤ score
      → score ≤ (stop / p.seconds + 1) * 2 ^ p.bits
      → list_user_traffic r p user (pos start) (pos stop) db ≡ ok entries
      → Mem (decode p (m, score)) entries
  unfolding list_user_traffic decoded
  listed p user m start stop score db entries h lo hi e =
      let a : ltb_ℤ (pos start) (pos 0) ≡ false = ground arith in
      let b : ltb_ℤ (pos stop) (pos 0) ≡ false = ground arith in
      let e' = rw (a, b) at e in go (r.range key from upto db) refl e'
    where
      key : Str
      key = p.user_prefix ++ user

      from : ℕ
      from = (start / p.seconds) * 2 ^ p.bits

      upto : ℕ
      upto = (stop / p.seconds + 1) * 2 ^ p.bits

      go :
          (q : Result StatError (List (Str × ℕ)))
          → r.range key from upto db ≡ q
          → decoded r p q ≡ ok entries
          → Mem (decode p (m, score)) entries
      go (err x) g k = absurd (cc k)
      go (ok ps) g k =
          let same : map (decode p) ps ≡ entries = cc in
          subst (Mem (decode p (m, score))) same
            (mem-map_of_mem (decode p) (doc.found key from upto db ps m score g h lo hi))

  -- For each of the three periods, until 2106: if a user's traffic is added at the time `now`, when the
  -- current period of the user holds kb0 kilobytes and these and the new ones fit in the bits of
  -- the traffic, and the user is listed over times that include `now`, then the current period is
  -- listed with the sum.
  pub add_users_traffic-listed :
      (p : Period) (now : ℕ) (user : Str) (before after : Assoc ℤ) (n kb0 start stop : ℕ)
      (db : r.Db) (entries : List (ℤ × ℕ))
      → Used p
      → now < 2 ^ 32
      → p.keep ≤ now
      → Absent user before
      → Absent user after
      → 0 < n
      → Holds (r.scores db (user_key p now user) (show_nat (floor_to p now))) (score_base p now) kb0
      → kb0 + n / 1024 < 2 ^ p.bits
      → start ≤ now
      → now ≤ stop
      → let added = add_users_traffic r p now (before ++ ((user, pos n) ∷ after)) db in
        added.0 ≡ ok tt
        → list_user_traffic r p user (pos start) (pos stop) added.1 ≡ ok entries
        → Mem (pos (floor_to p now * p.seconds), kb0 + n / 1024) entries
  unfolding add_users_traffic
  add_users_traffic-listed p now user before after n kb0 start stop db entries u small old ha hb hn
        holds fits a b done e =
      let cs = traffic_commands p now (before ++ ((user, pos n) ∷ after)) in
      let m = show_nat (floor_to p now) in
      let score = score_base p now + (kb0 + n / 1024) in
      let (below, low_bits, high_bits, lower) =
        score_base-fits p now (kb0 + n / 1024) u small old fits in
      let (lo, hi) = in_range p now start stop (kb0 + n / 1024) u a b fits in
      let stored =
        ap (λ f. f (user_key p now user) m) (doc.ran cs db done)
        ∙ traffic_score p now user r.round (r.scores db) before after n kb0 doc.exact u small old ha
            hb hn holds fits in
      subst (λ x. Mem x entries)
        (decode_score p now (kb0 + n / 1024) (small_floor p now u small) low_bits)
        (listed p user m start stop score (r.exec cs db).1 entries stored lo hi e)
