-- ===== src/Ws/Rules/Verdict.antt =====
-- The decision on a destination, against a reading of the list of rules as it is configured.
use titan_ipoverlay.Prelude.{
  ◌≡◌, refl, inl, inr, Bool, true, false, Option, none, some, List, [], ◌∷◌, arith, if◌then◌else◌,
  Option-cases, subst,
}
use titan_ipoverlay.Prelude.Str.{Str, codes, str_eq}
use titan_ipoverlay.Prelude.Assoc.{Assoc, lookup, insert, or_else, lookup-insert}
use titan_ipoverlay.Ws.Rules.{
  FilterRule, is_kind, is_action, put_rules, rules_to_map, decide, is_deny,
}

-- The last rule of the configuration for a value.
abbrev pub last_rule : Str → List FilterRule → Option FilterRule
last_rule k [] = none
last_rule k (r ∷ rs) = or_else (last_rule k rs) (if str_eq r.value k then some r else none)

-- The configuration allows no other kinds and actions.
abbrev pub Configured : List FilterRule → Type 0
Configured [] = Unit {0}
Configured (r ∷ rs) = ((is_kind r.kind ≡ true) × (is_action r.action ≡ true)) × Configured rs

abbrev pub verdict : Str → Option FilterRule → Bool
verdict default_action none = str_eq default_action (codes "deny")
verdict default_action (some r) = str_eq r.action (codes "deny")

lookup-put_rules :
    (k : Str) (rs : List FilterRule) (m : Assoc FilterRule)
    → lookup k (put_rules rs m) ≡ or_else (last_rule k rs) (lookup k m)
unfolding put_rules
lookup-put_rules k [] m = refl
lookup-put_rules k (r ∷ rs) m =
    rw (lookup-put_rules k rs (insert r.value r m), lookup-insert r.value k r m)
      (elim (Option-cases (last_rule k rs)) [
        | inl e ↦ rw e (ground arith)
        | inr (a, e) ↦ rw e refl
      ])

some_inj : (a b : FilterRule) → some a ≡ some b → a ≡ b
some_inj a b h = cc

last_rule-Configured :
    (k : Str) (rs : List FilterRule) (r : FilterRule)
    → Configured rs
    → last_rule k rs ≡ some r
    → (is_kind r.kind ≡ true) × (is_action r.action ≡ true)
last_rule-Configured k [] r c e = cc
last_rule-Configured k (q ∷ rs) r c e = elim (Option-cases (last_rule k rs)) [
  | inl n ↦ last_here (str_eq q.value k) (rw n at e)
  | inr (a, s) ↦ last_rule-Configured k rs r c.1 (let e' = rw s at e in rw s e')
]
  where
    last_here :
        (b : Bool)
        → (if b then some q else none) ≡ some r
        → (is_kind r.kind ≡ true) × (is_action r.action ≡ true)
    last_here true h =
        subst (λ x. (is_kind x.kind ≡ true) × (is_action x.action ≡ true)) (some_inj q r h) c.0
    last_here false h = cc

none_last : (o : Option FilterRule) → or_else o none ≡ o
none_last none = refl
none_last (some a) = refl

decide-Configured :
    (default_action : Str) (o : Option FilterRule)
    → ((r : FilterRule) → o ≡ some r → (is_kind r.kind ≡ true) × (is_action r.action ≡ true))
    → decide default_action o ≡ some (verdict default_action o)
unfolding decide
decide-Configured default_action none h = refl
decide-Configured default_action (some r) h = let (a, b) = h r refl in rw (a, b) refl

found-Configured :
    (domain port : Str) (rs : List FilterRule) (r : FilterRule)
    → Configured rs
    → or_else (last_rule domain rs) (last_rule port rs) ≡ some r
    → (is_kind r.kind ≡ true) × (is_action r.action ≡ true)
found-Configured domain port rs r c e = elim (Option-cases (last_rule domain rs)) [
  | inl n ↦ last_rule-Configured port rs r c (rw n at e)
  | inr (a, s) ↦ last_rule-Configured domain rs r c (let e' = rw s at e in rw s e')
]

-- On rules of the allowed kinds and actions no destination panics: the last rule for the domain
-- decides, without one the last rule for the port, and without either the default action.
pub is_deny-rules_to_map :
    (rs : List FilterRule) (default_action domain port : Str)
    → Configured rs
    → is_deny (record { rules = rules_to_map rs; default_action = default_action }) domain port
      ≡ some (verdict default_action (or_else (last_rule domain rs) (last_rule port rs)))
unfolding is_deny rules_to_map lookup
is_deny-rules_to_map rs default_action domain port c =
    rw (lookup-put_rules domain rs [], lookup-put_rules port rs [])
      (rw (none_last (last_rule domain rs), none_last (last_rule port rs))
        (decide-Configured default_action (or_else (last_rule domain rs) (last_rule port rs))
          (λ r e. found-Configured domain port rs r c e)))
