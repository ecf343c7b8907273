-- ===== src/Model/Traffic/Pipeline.antt =====
-- What the pipeline of ippop/model/traffic5min.go, traffichour.go and trafficday.go does to the
-- set of one user.
use titan_ipoverlay.Prelude.{
  ℕ, ◌+◌, ◌/◌, ◌^◌, ◌≤◌, ◌<◌, ◌≡◌, refl, sym, ap, subst, ◌∙◌, ◌⊎◌, inl, inr, Bool, true, false,
  Option, none, some, List, [], ◌∷◌, ◌++◌, leb, if◌then◌else◌, arith, lt→ltb,
}
use mathlib.Core.List.{append_assoc}
use titan_ipoverlay.Prelude.Str.{Str, str_eq, str_eq_refl, str_eq-append}
use titan_ipoverlay.Prelude.Assoc.{Assoc}
use titan_ipoverlay.Prelude.Int.{ℤ, pos, pos_part, ltb_ℤ}
use titan_ipoverlay.Prelude.Decimal.{show_nat}
use titan_ipoverlay.Model.Traffic.{
  Scores, SetCmd, zaddnx, zincrby, zremrangebyscore, apply, run, kept_or, Period, floor_to,
  score_base, min_score, user_key, add_commands, user_commands, users_commands, total_kb,
  traffic_commands,
}
use titan_ipoverlay.Model.Traffic.Scores.{Used, per_5_min, per_hour, per_day, score_base-fits}

pub run-append :
    (round : ℕ → ℕ) (sc : Scores) (a b : List SetCmd)
    → run round sc (a ++ b) ≡ run round (run round sc a) b
unfolding run
run-append round sc [] b = refl
run-append round sc (c ∷ a) b = run-append round (apply round sc c) a b

abbrev key_of : SetCmd → Str
key_of (zaddnx k score m) = k
key_of (zincrby k d m) = k
key_of (zremrangebyscore k lo hi) = k

-- No command is on the key.
abbrev Apart : Str → List SetCmd → Type 0
Apart key [] = Unit {0}
Apart key (c ∷ cs) = (str_eq (key_of c) key ≡ false) × Apart key cs

Apart-append : (key : Str) (a b : List SetCmd) → Apart key a → Apart key b → Apart key (a ++ b)
Apart-append key [] b h g = g
Apart-append key (c ∷ a) b h g = (h.0, Apart-append key a b h.1 g)

apply-Apart :
    (round : ℕ → ℕ) (sc : Scores) (c : SetCmd) (key m : Str)
    → str_eq (key_of c) key ≡ false
    → apply round sc c key m ≡ sc key m
unfolding apply
apply-Apart round sc (zaddnx k score i) key m h = rw h refl
apply-Apart round sc (zincrby k d i) key m h = rw h refl
apply-Apart round sc (zremrangebyscore k lo hi) key m h = rw h refl

run-Apart :
    (round : ℕ → ℕ) (sc : Scores) (cs : List SetCmd) (key m : Str)
    → Apart key cs
    → run round sc cs key m ≡ sc key m
unfolding run
run-Apart round sc [] key m h = refl
run-Apart round sc (c ∷ cs) key m h =
    run-Apart round (apply round sc c) cs key m h.1 ∙ apply-Apart round sc c key m h.0

-- The traffic that the current period has so far.
abbrev pub Holds : Option ℕ → ℕ → ℕ → Type 0
Holds o base kb = ((o ≡ none) × (kb ≡ 0)) ⊎ (o ≡ some (base + kb))

held_sum :
    (round : ℕ → ℕ) (o : Option ℕ) (base kb0 kb : ℕ)
    → round base ≡ base
    → Holds o base kb0
    → kept_or o (round base) + kb ≡ base + (kb0 + kb)
unfolding kept_or
held_sum round o base kb0 kb e (inl (h, z)) = rw (h, e) (omega (arith, z))
held_sum round o base kb0 kb e (inr h) = rw h (omega arith)

-- The three commands, on their own key.
own_commands :
    (round : ℕ → ℕ) (sc : Scores) (key m : Str) (base low kb0 kb : ℕ)
    → ((n : ℕ) → n ≤ 2 ^ 53 → round n ≡ n)
    → Holds (sc key m) base kb0
    → low < base
    → base + (kb0 + kb) ≤ 2 ^ 53
    → run round sc (zaddnx key base m ∷ zincrby key kb m ∷ zremrangebyscore key 0 low ∷ []) key m
      ≡ some (base + (kb0 + kb))
unfolding run apply
own_commands round sc key m base low kb0 kb exact holds hl fits =
    let sum = held_sum round (sc key m) base kb0 kb (exact base (omega arith)) holds in
    let high : leb (base + (kb0 + kb)) low ≡ false = ground (arith, hl) in
    rw (str_eq_refl key, str_eq_refl m, sum, exact (base + (kb0 + kb)) fits) (ground (arith, hl))

-- The user has no other entry.
abbrev pub Absent : Str → Assoc ℤ → Type 0
Absent user [] = Unit {0}
Absent user ((other, traffic) ∷ users) = (str_eq other user ≡ false) × Absent user users

module _ (p : Period) (now : ℕ) (user : Str) where
  other_commands :
      (other : Str) (traffic : ℤ)
      → str_eq other user ≡ false
      → Apart (user_key p now user) (user_commands p now other traffic)
  unfolding user_commands add_commands
  other_commands other traffic h = go (ltb_ℤ (pos 0) traffic)
    where
      apart : str_eq (p.user_prefix ++ other) (p.user_prefix ++ user) ≡ false
      apart = str_eq-append p.user_prefix other user ∙ h

      go :
          (b : Bool)
          → Apart (user_key p now user) (
              if b then add_commands p now (user_key p now other) (pos_part traffic / 1024) else [])
      go true = (apart, (apart, (apart, tt)))
      go false = tt

  users-Apart :
      (users : Assoc ℤ)
      → Absent user users
      → Apart (user_key p now user) (users_commands p now users)
  unfolding users_commands
  users-Apart [] h = tt
  users-Apart ((other, traffic) ∷ users) h =
      Apart-append (user_key p now user) (user_commands p now other traffic)
        (users_commands p now users) (other_commands other traffic h.0) (users-Apart users h.1)

  users_commands-append :
      (a b : Assoc ℤ)
      → users_commands p now (a ++ b) ≡ users_commands p now a ++ users_commands p now b
  unfolding users_commands
  users_commands-append [] b = refl
  users_commands-append ((other, traffic) ∷ a) b = rw (users_commands-append a b) (
      sym (
        append_assoc (user_commands p now other traffic) (users_commands p now a)
          (users_commands p now b)))

  all_key-Apart : (kb : ℕ) → Used p → Apart (user_key p now user) (add_commands p now p.all_key kb)
  unfolding add_commands str_eq
  all_key-Apart kb u = (apart p u, (apart p u, (apart p u, tt)))
    where
      apart : (q : Period) → Used q → str_eq q.all_key (q.user_prefix ++ user) ≡ false
      apart _ per_5_min = refl
      apart _ per_hour = refl
      apart _ per_day = refl

  positive_commands :
      (n : ℕ)
      → 0 < n
      → user_commands p now user (pos n) ≡ add_commands p now (user_key p now user) (n / 1024)
  unfolding user_commands
  positive_commands n h =
      let e : ltb_ℤ (pos 0) (pos n) ≡ true = lt→ltb (0 + 0) (n + 0) (omega arith) in rw e refl

  own_add :
      (round : ℕ → ℕ) (sc : Scores) (n kb0 : ℕ)
      → ((k : ℕ) → k ≤ 2 ^ 53 → round k ≡ k)
      → Used p
      → now < 2 ^ 32
      → p.keep ≤ now
      → Holds (sc (user_key p now user) (show_nat (floor_to p now))) (score_base p now) kb0
      → kb0 + n / 1024 < 2 ^ p.bits
      → run round sc
          (add_commands p now (user_key p now user) (n / 1024))
          (user_key p now user)
          (show_nat (floor_to p now))
        ≡ some (score_base p now + (kb0 + n / 1024))
  unfolding add_commands
  own_add round sc n kb0 exact u small old holds fits =
      let (below, a, b, lower) = score_base-fits p now (kb0 + n / 1024) u small old fits in
      own_commands round sc (user_key p now user) (show_nat (floor_to p now)) (score_base p now)
        (min_score p now) kb0 (n / 1024) exact holds lower (omega (arith, below))

  -- The score that the user's traffic brings about.
  pub traffic_score :
      (round : ℕ → ℕ) (sc : Scores) (before after : Assoc ℤ) (n kb0 : ℕ)
      → ((k : ℕ) → k ≤ 2 ^ 53 → round k ≡ k)
      → Used p
      → now < 2 ^ 32
      → p.keep ≤ now
      → Absent user before
      → Absent user after
      → 0 < n
      → Holds (sc (user_key p now user) (show_nat (floor_to p now))) (score_base p now) kb0
      → kb0 + n / 1024 < 2 ^ p.bits
      → run round sc
          (traffic_commands p now (before ++ ((user, pos n) ∷ after)))
          (user_key p now user)
          (show_nat (floor_to p now))
        ≡ some (score_base p now + (kb0 + n / 1024))
  unfolding traffic_commands users_commands
  traffic_score round sc before after n kb0 exact u small old ha hb hn holds fits =
      let key = user_key p now user in
      let m = show_nat (floor_to p now) in
      let first = users_commands p now before in
      let own = add_commands p now key (n / 1024) in
      let rest = users_commands p now after in
      let sum = add_commands p now p.all_key (total_kb p now (before ++ ((user, pos n) ∷ after))) in
      let sc1 = run round sc first in
      let sc2 = run round sc1 own in
      let sc3 = run round sc2 rest in
      rw (users_commands-append before ((user, pos n) ∷ after), positive_commands n hn)
        (ap (λ f. f key m) (run-append round sc (first ++ (own ++ rest)) sum)
          ∙ ap (λ t. run round t sum key m)
              (run-append round sc first (own ++ rest) ∙ run-append round sc1 own rest)
          ∙ run-Apart round sc3 sum key m
              (all_key-Apart (total_kb p now (before ++ ((user, pos n) ∷ after))) u)
          ∙ run-Apart round sc2 rest key m (users-Apart after hb)
          ∙ own_add round sc1 n kb0 exact u small old
              (subst (λ o. Holds o (score_base p now) kb0)
                (sym (run-Apart round sc first key m (users-Apart before ha))) holds)
              fits)
