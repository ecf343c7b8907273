-- ===== src/Prelude/Assoc.antt =====
-- A Go map (and a Redis hash) with string keys as an association list. Only `lookup`, the
-- emptiness and the entries in some order are observed.
use mathlib.Core.Path.{◌≡◌, refl}
use mathlib.Core.List.{List, [], ◌∷◌}
use mathlib.Core.Option.{Option, none, some}
use native.Mathlib.Omega.{arith}
use titan_ipoverlay.Prelude.Tests.{if◌then◌else◌}
use titan_ipoverlay.Prelude.Str.{Str, str_eq, str_eq_iff}

abbrev pub Assoc {ℓ} : Type ℓ → Type ℓ
Assoc V = List (Str × V)

abbrev pub or_else {ℓ} : {V : Type ℓ} → Option V → Option V → Option V
or_else none o = o
or_else (some v) o = some v

module _ {ℓ} {V : Type ℓ} where
  unfoldable pub lookup : Str → Assoc V → Option V
  lookup k [] = none
  lookup k ((j, v) ∷ m) = if str_eq j k then some v else lookup k m

  unfoldable pub insert : Str → V → Assoc V → Assoc V
  insert k v [] = (k, v) ∷ []
  insert k v ((j, w) ∷ m) = if str_eq j k then (k, v) ∷ m else (j, w) ∷ insert k v m

  unfoldable pub remove : Str → Assoc V → Assoc V
  remove k [] = []
  remove k ((j, v) ∷ m) = let rest = remove k m in if str_eq j k then rest else (j, v) ∷ rest

  -- The entries of the first map over those of the second.
  unfoldable pub merge : Assoc V → Assoc V → Assoc V
  merge [] m = m
  merge ((k, v) ∷ new) m = merge new (insert k v m)

  pub lookup-insert :
      (k j : Str) (v : V) (m : Assoc V)
      → lookup j (insert k v m) ≡ (if str_eq k j then some v else lookup j m)
  unfolding lookup insert
  lookup-insert k j v [] = refl
  lookup-insert k j v ((i, w) ∷ m) =
      ground (arith, str_eq_iff k j, str_eq_iff i k, str_eq_iff i j, lookup-insert k j v m)

  pub lookup-remove :
      (k j : Str) (m : Assoc V) → lookup j (remove k m) ≡ (if str_eq k j then none else lookup j m)
  unfolding lookup remove
  lookup-remove k j [] = ground arith
  lookup-remove k j ((i, v) ∷ m) =
      ground (arith, lookup-remove k j m, str_eq_iff i k, str_eq_iff i j, str_eq_iff k j)

  -- The value that the last entry with the key k gives, if there is one.
  unfoldable pub last_value : Str → Assoc V → Option V
  last_value k [] = none
  last_value k ((j, v) ∷ m) = or_else (last_value k m) (if str_eq j k then some v else none)

  pub lookup-merge :
      (k : Str) (new m : Assoc V) → lookup k (merge new m) ≡ or_else (last_value k new) (lookup k m)
  unfolding merge last_value
  lookup-merge k [] m = refl
  lookup-merge k ((j, v) ∷ new) m =
      rw (lookup-merge k new (insert j v m), lookup-insert j k v m) (ground arith)

pub ruleset assoc_laws = (lookup-insert, lookup-remove)
