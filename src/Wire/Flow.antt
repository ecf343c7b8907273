-- ===== src/Wire/Flow.antt =====
-- What one end of a session has written, what is under way to it, and what the other end has read.
use titan_ipoverlay.Prelude.{◌≡◌, refl, sym, Bool, true, false, [], ◌++◌}
use titan_ipoverlay.Prelude.Str.{Str}
use mathlib.Core.List.{append_assoc, append-nil}

-- `written`, `pending` and `received`, while the link takes frames and the writer takes bytes. Bytes
-- are lost only behind those that arrive, once the link or the writer has stopped.
abbrev pub Flow : Str → Str → Str → Bool → Bool → Type 0
Flow w p r true true = w ++ p ≡ r
Flow w p r false true = (rest : Str) × (w ++ (p ++ rest) ≡ r)
Flow w p r l false = (rest : Str) × (w ++ rest ≡ r)

module _ (w p r : Str) where
  pub Flow-weaken :
      (l l' k k' : Bool)
      → Flow w p r l k
      → (l' ≡ true → l ≡ true)
      → (k' ≡ true → k ≡ true)
      → Flow w p r l' k'
  Flow-weaken true true true true f a b = f
  Flow-weaken true true true false f a b = (p, f)
  Flow-weaken true false true true f a b = ([], rw append-nil f)
  Flow-weaken true false true false f a b = (p, f)
  Flow-weaken false true true k' f a b = absurd (cc (a refl))
  Flow-weaken false false true true f a b = f
  Flow-weaken false false true false f a b = (p ++ f.0, f.1)
  Flow-weaken l l' false true f a b = absurd (cc (b refl))
  Flow-weaken l l' false false f a b = f

  pub Flow-read : (b : Str) (k : Bool) → Flow w p r true k → Flow w (p ++ b) (r ++ b) true k
  Flow-read b true f = rw (← f) (sym (append_assoc w p b))
  Flow-read b false f = (f.0 ++ b, rw (← f.1) (sym (append_assoc w f.0 b)))

  pub Flow-lose : (b : Str) (k : Bool) → Flow w p r false k → Flow w p (r ++ b) false k
  Flow-lose b true f =
      (f.0 ++ b, rw (← f.1) (rw (← append_assoc p f.0 b) (sym (append_assoc w (p ++ f.0) b))))
  Flow-lose b false f = (f.0 ++ b, rw (← f.1) (sym (append_assoc w f.0 b)))

  pub Flow-write : (b : Str) (l : Bool) → Flow w (b ++ p) r l true → Flow (w ++ b) p r l true
  Flow-write b true f = rw (append_assoc w b p) f
  Flow-write b false f = (f.0, rw (append_assoc w b (p ++ f.0), ← append_assoc b p f.0) f.1)

  pub Flow-skip : (b : Str) (l : Bool) → Flow w (b ++ p) r l false → Flow w p r l false
  Flow-skip b l f = f

  -- The writer has a prefix of what was read.
  pub Flow-prefix : (l k : Bool) → Flow w p r l k → (rest : Str) × (w ++ rest ≡ r)
  Flow-prefix true true f = (p, f)
  Flow-prefix false true f = (p ++ f.0, f.1)
  Flow-prefix l false f = f
