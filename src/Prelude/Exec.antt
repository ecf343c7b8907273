-- ===== src/Prelude/Exec.antt =====
-- Go functions that return an error, with and without a state that they change. What was written
-- before an error stays written, so the state comes back beside the error too.
use mathlib.Core.Path.{◌≡◌, refl, sym, subst}

pub data Result {ℓ} (E : Type 0) (A : Type ℓ) : Type ℓ where
  ok : A → Result E A
  err : E → Result E A

abbrev pub Exec {ℓ} : Type 0 → Type ℓ → Type ℓ → Type ℓ
Exec E S A = S → Result E A × S

module _ {ℓ} {E : Type 0} {S A : Type ℓ} where
  abbrev pub pure : A → Exec E S A
  pure a s = (ok a, s)

  abbrev pub raise : E → Exec E S A
  raise e s = (err e, s)

  abbrev pub lift : Result E A → Exec E S A
  lift r s = (r, s)

module _ {ℓ} {E : Type 0} {S A B : Type ℓ} where
  abbrev pub continue : Result E A → (A → Exec E S B) → Exec E S B
  continue (ok a) f s = f a s
  continue (err e) f s = (err e, s)

  infixl 10 ◌>>=◌ ◌>>◌
  abbrev pub ◌>>=◌ : Exec E S A → (A → Exec E S B) → Exec E S B
  ◌>>=◌ m f s = let (r, s') = m s in continue r f s'

  abbrev pub ◌>>◌ : Exec E S A → Exec E S B → Exec E S B
  m >> n = m >>= λ _. n

  -- A block that succeeds has succeeded at its first action, and then at the rest.
  pub bind-eq-ok :
      (m : Exec E S A) (f : A → Exec E S B) (s : S) {b : B}
      → (◌>>=◌ m f s).0 ≡ ok b
      → (a : A) × ((m s).0 ≡ ok a) × ((f a (m s).1).0 ≡ ok b) × ((◌>>=◌ m f s).1 ≡ (f a (m s).1).1)
  bind-eq-ok m f s {b = b} h = go (m s).0 (m s).1 h
    where
      go :
          (r : Result E A) (s' : S)
          → (continue r f s').0 ≡ ok b
          → (a : A) × (r ≡ ok a) × ((f a s').0 ≡ ok b) × ((continue r f s').1 ≡ (f a s').1)
      go (ok a) s' h = (a, refl, h, refl)
      go (err e) s' h = cc

  -- What holds of every success of the last action holds of every success of the block.
  pub bind-last :
      (P : B → S → Type 0) (m : Exec E S A) (f : A → Exec E S B)
      → ((a : A) (t : S) (b : B) → (f a t).0 ≡ ok b → P b (f a t).1)
      → (s : S) (b : B) → (◌>>=◌ m f s).0 ≡ ok b
      → P b (◌>>=◌ m f s).1
  bind-last P m f h s b e = go (m s).0 (m s).1 e
    where
      go : (r : Result E A) (t : S) → (continue r f t).0 ≡ ok b → P b (continue r f t).1
      go (ok a) t e = h a t b e
      go (err x) t e = absurd (cc e)

-- If the action succeeds from a state of the first kind, its result and state are of the second.
module _ {E : Type 0} {S : Type 0} where
  abbrev pub Ensures : {A : Type 0} → (S → Type 0) → Exec E S A → (A → S → Type 0) → Type 0
  Ensures {A = A} I m Q = (s : S) (a : A) → I s → (m s).0 ≡ ok a → Q a (m s).1

  pub Ensures-bind :
      {A B : Type 0} (I : S → Type 0) (R : A → S → Type 0) (Q : B → S → Type 0) (m : Exec E S A)
      (f : A → Exec E S B)
      → Ensures I m R
      → ((a : A) → Ensures (R a) (f a) Q)
      → Ensures I (◌>>=◌ m f) Q
  Ensures-bind I R Q m f g h s b i e =
      let (a, e', k, q) = bind-eq-ok m f s e in
      subst (λ t. Q b t) (sym q) (h a (m s).1 b (g s a i e') k)
