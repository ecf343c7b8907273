-- ===== src/Ws/Rules.antt =====
-- ippop/ws/filterrule.go: which destinations are denied.
pub mod Verdict
use titan_ipoverlay.Prelude.{
  Bool, true, false, ◌||◌, not, Option, none, some, List, [], ◌∷◌, if◌then◌else◌,
}
use titan_ipoverlay.Prelude.Str.{Str, codes, str_eq}
use titan_ipoverlay.Prelude.Assoc.{Assoc, lookup, insert, or_else}

-- config.FilterRule
pub record FilterRule : Type 0 where
  pub kind : Str
  pub value : Str
  pub action : Str

pub record Rules : Type 0 where
  pub rules : Assoc FilterRule
  pub default_action : Str

abbrev pub is_kind : Str → Bool
is_kind s = str_eq s (codes "domain") || str_eq s (codes "ip") || str_eq s (codes "port")

abbrev pub is_action : Str → Bool
is_action s = str_eq s (codes "allow") || str_eq s (codes "deny")

put_rules : List FilterRule → Assoc FilterRule → Assoc FilterRule
put_rules [] m = m
put_rules (r ∷ rs) m = put_rules rs (insert r.value r m)

-- RulesToMap; the loop variable is a new one in each round (go 1.23).
unfoldable pub rules_to_map : List FilterRule → Assoc FilterRule
unfolding put_rules
rules_to_map rs = put_rules rs []

-- `none` is a panic.
decide : Str → Option FilterRule → Option Bool
decide default_action none = some (str_eq default_action (codes "deny"))
decide default_action (some rule) =
    if not (is_kind rule.kind)
    then none
    else if not (is_action rule.action)
    then none
    else some (str_eq rule.action (codes "deny"))

unfoldable pub is_deny : Rules → Str → Str → Option Bool
unfolding decide
is_deny rules domain port =
    decide rules.default_action (or_else (lookup domain rules.rules) (lookup port rules.rules))
