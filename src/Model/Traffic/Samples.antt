-- ===== src/Model/Traffic/Samples.antt =====
-- A Redis server with sorted sets that keeps the commands it was sent, as an instance of the
-- interface of Model/Traffic.antt, and its documented behaviour.
use titan_ipoverlay.Prelude.{
  ℕ, ◌≤◌, ◌^◌, ◌≡◌, refl, sym, ◌∙◌, Bool, true, false, ◌&&◌, ◌||◌, Option, none, some, List, [],
  ◌∷◌, ◌++◌, leb, if◌then◌else◌, Bool-cases, inl, inr, le→leb, subst,
}
use mathlib.Core.List.{Mem, mem-cons_self, mem-append_left, mem-append_right}
use titan_ipoverlay.Model.Traffic.Pipeline.{run-append}
use titan_ipoverlay.Prelude.Str.{Str, str_eq, str_eq_sound}
use titan_ipoverlay.Prelude.Exec.{ok}
use titan_ipoverlay.Model.Traffic.{
  Scores, SetCmd, zaddnx, zincrby, zremrangebyscore, Sets, Documented, StatError, apply, run, put,
  without,
}

abbrev exact_float : ℕ → ℕ
exact_float n = n

abbrev pub no_scores : Scores
no_scores k m = none

abbrev pub scores_of : List SetCmd → Scores
scores_of log = run (λ n. n) no_scores log

abbrev pub entry : ℕ → ℕ → Str → Option ℕ → List (Str × ℕ)
entry lo hi m none = []
entry lo hi m (some s) = if leb lo s && leb s hi then (m, s) ∷ [] else []

abbrev pub member : SetCmd → Option Str
member (zaddnx k s m) = some m
member (zincrby k s m) = some m
member (zremrangebyscore k lo hi) = none

abbrev pub entries_of : Scores → Str → ℕ → ℕ → Option Str → List (Str × ℕ)
entries_of sc k lo hi none = []
entries_of sc k lo hi (some m) = entry lo hi m (sc k m)

abbrev pub entries : Scores → Str → ℕ → ℕ → List SetCmd → List (Str × ℕ)
entries sc k lo hi [] = []
entries sc k lo hi (c ∷ log) = entries_of sc k lo hi (member c) ++ entries sc k lo hi log

is_of : Str → Option Str → Bool
is_of m none = false
is_of m (some i) = str_eq i m

mentions : Str → List SetCmd → Bool
mentions m [] = false
mentions m (c ∷ log) = is_of m (member c) || mentions m log

put-other :
    (sc : Scores) (k i : Str) (o : Option ℕ) (j m : Str)
    → str_eq i m ≡ false
    → put sc k i o j m ≡ sc j m
put-other sc k i o j m h = elim (Bool-cases (str_eq k j)) [
  | inl e ↦ rw (e, h) refl
  | inr e ↦ rw e refl
]

or-false : (a b : Bool) → (a || b) ≡ false → (a ≡ false) × (b ≡ false)
or-false false b h = (refl, h)
or-false true b h = (h, absurd (cc h))

apply-unmentioned :
    (sc : Scores) (k m : Str) (c : SetCmd)
    → is_of m (member c) ≡ false
    → sc k m ≡ none
    → apply exact_float sc c k m ≡ none
unfolding is_of apply without
apply-unmentioned sc k m (zaddnx j s i) h gone = put-other sc j i _ k m h ∙ gone
apply-unmentioned sc k m (zincrby j s i) h gone = put-other sc j i _ k m h ∙ gone
apply-unmentioned sc k m (zremrangebyscore j a b) h gone = elim (Bool-cases (str_eq j k)) [
  | inl e ↦ rw (e, gone) refl
  | inr e ↦ rw (e, gone) refl
]

run-unmentioned :
    (sc : Scores) (k m : Str) (log : List SetCmd)
    → mentions m log ≡ false
    → sc k m ≡ none
    → run exact_float sc log k m ≡ none
unfolding run mentions
run-unmentioned sc k m [] h gone = gone
run-unmentioned sc k m (c ∷ log) h gone =
    let hs = or-false (is_of m (member c)) (mentions m log) h in
    run-unmentioned (apply exact_float sc c) k m log hs.1 (apply-unmentioned sc k m c hs.0 gone)

entry-mem :
    (lo hi s : ℕ) (m : Str) (o : Option ℕ)
    → o ≡ some s
    → lo ≤ s
    → s ≤ hi
    → entry lo hi m o ≡ (m, s) ∷ []
entry-mem lo hi s m o has low high = rw (has, le→leb lo s low, le→leb s hi high) refl

entries-mention :
    (sc : Scores) (k m : Str) (lo hi s : ℕ) (log : List SetCmd)
    → mentions m log ≡ true
    → sc k m ≡ some s
    → lo ≤ s
    → s ≤ hi
    → Mem (m, s) (entries sc k lo hi log)
unfolding mentions is_of
entries-mention sc k m lo hi s [] h has low high = absurd (cc h)
entries-mention sc k m lo hi s (c ∷ log) h has low high = elim (Bool-cases (is_of m (member c))) [
  | inl e ↦ mem-append_left (entries sc k lo hi log) (here (member c) e)
  | inr e ↦
      mem-append_right (entries_of sc k lo hi (member c))
        (entries-mention sc k m lo hi s log (other (is_of m (member c)) e h) has low high)
]
  where
    other : (b : Bool) → b ≡ false → (b || mentions m log) ≡ true → mentions m log ≡ true
    other b e g = rw e at g

    here : (o : Option Str) → is_of m o ≡ true → Mem (m, s) (entries_of sc k lo hi o)
    here none e = absurd (cc e)
    here (some i) e =
        rw (str_eq_sound i m e, entry-mem lo hi s m (sc k m) has low high) mem-cons_self

abbrev pub sets : Sets StatError
sets = record {
  Db = List SetCmd;
  scores = scores_of;
  round = λ n. n;
  exec = λ cs log. (ok tt, log ++ cs);
  range = λ k lo hi log. ok (entries (scores_of log) k lo hi log);
  last = λ k log. ok (entries (scores_of log) k 0 (2 ^ 53) log);
}

pub sets-Documented : Documented sets
sets-Documented = record {
  exact = λ n h. refl;
  ran = λ cs log h. run-append exact_float no_scores log cs;
  found = found_there;
}
  where
    found_there :
        (k : Str) (lo hi : ℕ) (log : List SetCmd) (ps : List (Str × ℕ)) (m : Str) (score : ℕ)
        → sets.range k lo hi log ≡ ok ps
        → scores_of log k m ≡ some score
        → lo ≤ score
        → score ≤ hi
        → Mem (m, score) ps
    found_there k lo hi log ps m score got has low high =
        subst (λ l. Mem (m, score) l) (cc got)
          (elim (Bool-cases (mentions m log)) [
            | inl e ↦ entries-mention (scores_of log) k m lo hi score log e has low high
            | inr e ↦ absurd (cc (sym (run-unmentioned no_scores k m log e refl) ∙ has))
          ])
