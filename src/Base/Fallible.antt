-- ===== src/Base/Fallible.antt =====
-- Calls that may fail and that change a state: the state that was written stays written when a later
-- call fails, so it comes back beside the error too.
use mathlib.Core.Path.{◌≡◌, refl, ap}

pub data Result {ℓ κ} (E : Type ℓ) (A : Type κ) : Type (ℓ ⊔ κ) where
  ok : A → Result E A
  err : E → Result E A

abbrev pub Exec {ℓ} : Type ℓ → Type ℓ → Type ℓ → Type ℓ
Exec S E A = S → Result E A × S

module _ {ℓ} {S E A : Type ℓ} where
  abbrev pub pure : A → Exec S E A
  pure a s = (ok a, s)

  abbrev pub fail : E → Exec S E A
  fail e s = (err e, s)

module _ {ℓ} {S E A B : Type ℓ} where
  abbrev pub continue : Result E A → (A → Exec S E B) → Exec S E B
  continue (ok a) f s = f a s
  continue (err e) f s = (err e, s)

  infixl 10 ◌>>=◌ ◌>>◌
  abbrev pub ◌>>=◌ : Exec S E A → (A → Exec S E B) → Exec S E B
  ◌>>=◌ m f s = continue (m s).0 f (m s).1

  abbrev pub ◌>>◌ : Exec S E A → Exec S E B → Exec S E B
  m >> n = m >>= λ _. n

module _ {ℓ} {S E A : Type ℓ} where
  abbrev pub lift : Result E A → Exec S E A
  lift r s = (r, s)

module _ {ℓ} {E F A : Type ℓ} (f : E → F) where
  abbrev pub relabel : Result E A → Result F A
  relabel (ok a) = ok a
  relabel (err e) = err (f e)

  -- The error of a call, put in other words.
  abbrev pub map_err : {S : Type ℓ} → Exec S E A → Exec S F A
  map_err m s = (relabel (m s).0, (m s).1)

-- A chain that succeeds has succeeded step by step.
module _ {ℓ} {S E A B : Type ℓ} where
  pub continue-ok :
      (r : Result E A) (f : A → Exec S E B) (s : S) {b : B} {s' : S}
      → continue r f s ≡ (ok b, s')
      → (a : A) × (r ≡ ok a) × (f a s ≡ (ok b, s'))
  continue-ok (ok a) f s h = (a, refl, h)
  continue-ok (err e) f s h = absurd (cc (ap (λ (p : Result E B × S). p.0) h))

module _ {ℓ} {E F A : Type ℓ} where
  pub relabel-ok : (f : E → F) (r : Result E A) {a : A} → relabel f r ≡ ok a → r ≡ ok a
  relabel-ok f (ok a) h = cc
  relabel-ok f (err e) h = cc
