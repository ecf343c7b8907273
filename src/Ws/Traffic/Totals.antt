-- ===== src/Ws/Traffic/Totals.antt =====
-- No counted byte is lost or sent twice.
use titan_ipoverlay.Prelude.{
  ℕ, ◌+◌, ◌*◌, ◌/◌, ◌%◌, ◌≤◌, ◌≡◌, refl, ap, ◌∙◌, inl, inr, true, false, Option, none, some, List,
  [], ◌∷◌, arith, if◌then◌else◌, Bool-cases,
}
use titan_ipoverlay.Prelude.Str.{Str, str_eq, str_eq_iff}
use titan_ipoverlay.Prelude.Assoc.{Assoc, lookup, insert, lookup-insert}
use titan_ipoverlay.Prelude.Int.{ℤ, pos, ◌+ℤ◌}
use titan_ipoverlay.Prelude.Decimal.{wrap64, wrap64_in_range, max_int64}
use titan_ipoverlay.Ws.Traffic.{value_or_zero, add, sent_part, kept_part, add_sent, snapshot, clear}

abbrev pub count : Str → Assoc ℤ → ℤ
count k m = value_or_zero (lookup k m)

-- Bytes that a user moves, and the timer that takes what is there.
pub data Event : Type 0 where
  moved : Str → ℕ → Event
  taken : Event

-- The bytes that the events add for a user.
abbrev pub total : Str → List Event → ℕ
total k [] = 0
total k (moved user n ∷ es) = (if str_eq user k then n else 0) + total k es
total k (taken ∷ es) = total k es

-- The counts after the events, the last event first, and what was taken for a user by then.
abbrev pub counts_after : List Event → Assoc ℤ
counts_after [] = []
counts_after (moved user n ∷ es) = add user (pos n) (counts_after es)
counts_after (taken ∷ es) = clear (counts_after es)

abbrev pub taken_for : Str → List Event → ℤ
taken_for k [] = pos 0
taken_for k (moved user n ∷ es) = taken_for k es
taken_for k (taken ∷ es) = count k (snapshot (counts_after es)) +ℤ taken_for k es

lookup-clear : (k : Str) (m : Assoc ℤ) → count k (clear m) ≡ kept_part (count k m)
unfolding clear lookup kept_part
lookup-clear k [] = refl
lookup-clear k ((user, z) ∷ m) = elim (Bool-cases (str_eq user k)) [
  | inl e ↦ rw e refl
  | inr e ↦ rw e (unfold kept_part in lookup-clear k m)
]

-- A Go map has each key once.
abbrev Unique : Assoc ℤ → Type 0
Unique [] = Unit {0}
Unique ((k, v) ∷ m) = (lookup k m ≡ none) × Unique m

abbrev map_kept : Option ℤ → Option ℤ
map_kept none = none
map_kept (some z) = some (kept_part z)

lookup-insert-Unique : (k : Str) (v : ℤ) (m : Assoc ℤ) → Unique m → Unique (insert k v m)
unfolding insert lookup
lookup-insert-Unique k v [] h = (refl, tt)
lookup-insert-Unique k v ((j, w) ∷ m) h = elim (Bool-cases (str_eq j k)) [
  | inl e ↦ rw e (rw ((str_eq_iff j k).0 e) at h.0, h.1)
  | inr e ↦ rw e (lookup-insert k j v m ∙ other e, lookup-insert-Unique k v m h.1)
]
  where
    other : str_eq j k ≡ false → (if str_eq k j then some v else lookup j m) ≡ none
    other e = ground (arith, str_eq_iff k j, str_eq_iff j k, h.0)

lookup-clear-eq : (k : Str) (m : Assoc ℤ) → lookup k (clear m) ≡ map_kept (lookup k m)
unfolding clear lookup
lookup-clear-eq k [] = refl
lookup-clear-eq k ((user, z) ∷ m) = elim (Bool-cases (str_eq user k)) [
  | inl e ↦ rw e refl
  | inr e ↦ rw e (lookup-clear-eq k m)
]

clear-Unique : (m : Assoc ℤ) → Unique m → Unique (clear m)
unfolding clear
clear-Unique [] h = tt
clear-Unique ((user, z) ∷ m) h = (rw (lookup-clear-eq user m, h.0) refl, clear-Unique m h.1)

absent_snapshot : (k : Str) (m : Assoc ℤ) → lookup k m ≡ none → lookup k (snapshot m) ≡ none
unfolding snapshot lookup
absent_snapshot k [] h = refl
absent_snapshot k ((user, z) ∷ m) h = elim (Bool-cases (str_eq user k)) [
  | inl e ↦ (let h' = rw e at h in cc)
  | inr e ↦ skip (sent_part z) e (absent_snapshot k m (rw e at h))
]
  where
    skip :
        (o : Option ℤ)
        → str_eq user k ≡ false
        → lookup k (snapshot m) ≡ none
        → lookup k (add_sent user o (snapshot m)) ≡ none
    skip none e a = a
    skip (some s) e a = rw e a

count-snapshot :
    (k : Str) (m : Assoc ℤ)
    → Unique m
    → count k (snapshot m) ≡ value_or_zero (sent_part (count k m))
unfolding snapshot lookup sent_part
count-snapshot k [] h = refl
count-snapshot k ((user, z) ∷ m) h = elim (Bool-cases (str_eq user k)) [
  | inl e ↦ rw e (hit (sent_part z) e)
  | inr e ↦ rw e (miss (sent_part z) e ∙ count-snapshot k m h.1)
]
  where
    hit :
        (o : Option ℤ)
        → str_eq user k ≡ true
        → count k (add_sent user o (snapshot m)) ≡ value_or_zero o
    hit none e = rw (absent_snapshot k m (rw ((str_eq_iff user k).0 e) at h.0)) refl
    hit (some s) e = rw e refl

    miss :
        (o : Option ℤ)
        → str_eq user k ≡ false
        → count k (add_sent user o (snapshot m)) ≡ count k (snapshot m)
    miss none e = refl
    miss (some s) e = rw e refl

counts_after-Unique : (es : List Event) → Unique (counts_after es)
unfolding add
counts_after-Unique [] = tt
counts_after-Unique (moved user n ∷ es) =
    lookup-insert-Unique user _ (counts_after es) (counts_after-Unique es)
counts_after-Unique (taken ∷ es) = clear-Unique (counts_after es) (counts_after-Unique es)

add_taken : (a b : ℕ) → pos a +ℤ pos b ≡ pos (a + b)
unfolding ◌+ℤ◌
add_taken a b = ground arith

add_pos : (a n : ℕ) → a + n ≤ max_int64 → wrap64 (pos a +ℤ pos n) ≡ pos (a + n)
add_pos a n h = rw (add_taken a n) (wrap64_in_range (pos (a + n)) (h, omega arith))

count-add :
    (k user : Str) (n a : ℕ) (m : Assoc ℤ)
    → count k m ≡ pos a
    → a + (if str_eq user k then n else 0) ≤ max_int64
    → count k (add user (pos n) m) ≡ pos (a + (if str_eq user k then n else 0))
unfolding add
count-add k user n a m e h = elim (Bool-cases (str_eq user k)) [
  | inl s ↦
      let same = (str_eq_iff user k).0 s in
      rw (lookup-insert user k (wrap64 (value_or_zero (lookup user m) +ℤ pos n)) m)
        (rw s (rw same (rw e (add_pos a n (rw s at h)))))
  | inr s ↦
      rw (lookup-insert user k (wrap64 (value_or_zero (lookup user m) +ℤ pos n)) m)
        (rw s (e ∙ ap pos (omega arith)))
]

-- What is conserved for one user: what was taken and what is left, out of what was added.
abbrev pub Conserved : Str → List Event → Type 0
Conserved k es =
    (sent : ℕ) × (left : ℕ) × (taken_for k es ≡ pos sent)
    × (count k (counts_after es) ≡ pos left)
    × (sent + left ≡ total k es)
    × (sent % 1024 ≡ 0)

sent_of : (n : ℕ) → value_or_zero (sent_part (pos n)) ≡ pos ((n / 1024) * 1024)
unfolding sent_part
sent_of n = ground arith

kept_of : (n : ℕ) → kept_part (pos n) ≡ pos (n % 1024)
unfolding kept_part
kept_of n = ground arith

-- As long as a user's bytes stay below 2^63, those that the timer has taken and those that are left
-- are all that were added, whatever the order of the events, and whole kilobytes are taken.
pub counts_after-Conserved : (k : Str) (es : List Event) → total k es ≤ max_int64 → Conserved k es
unfolding lookup
counts_after-Conserved k [] h = (0, 0, refl, refl, refl, refl)
counts_after-Conserved k (moved user n ∷ es) h =
    let (sent, left, t, c, s, w) = counts_after-Conserved k es (omega arith) in
    (
      sent,
      left + (if str_eq user k then n else 0),
      t,
      count-add k user n left (counts_after es) c (omega arith),
      omega arith,
      w,
    )
counts_after-Conserved k (taken ∷ es) h =
    let (sent, left, t, c, s, w) = counts_after-Conserved k es h in
    (
      (left / 1024) * 1024 + sent,
      left % 1024,
      rw (count-snapshot k (counts_after es) (counts_after-Unique es), c, t)
          (rw (sent_of left) (add_taken _ sent)),
      rw (lookup-clear k (counts_after es), c) (kept_of left),
      omega arith,
      omega arith,
    )
