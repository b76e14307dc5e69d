-- ===== src/Common/Attempt.antt =====
-- The `?` of code that fails and keeps no state.
use mathlib.Core.Path.{◌≡◌, refl}
use tlapix.Common.{Bool, Result, ok, err, if◌then◌else◌}

module _ {ℓ} {E A B : Type ℓ} where
  infixl 5 ◌>>=◌ ◌>>◌
  abbrev pub ◌>>=◌ : Result E A → (A → Result E B) → Result E B
  ok a >>= f = f a
  err e >>= f = err e

  abbrev pub ◌>>◌ : Result E A → Result E B → Result E B
  m >> n = m >>= λ _. n

  pub bind-ok :
      (m : Result E A) (f : A → Result E B) {b : B}
      → (m >>= f) ≡ ok b
      → (a : A) × (m ≡ ok a) × (f a ≡ ok b)
  bind-ok (ok a) f h = (a, refl, h)
  bind-ok (err e) f h = cc

abbrev pub guard_not {ℓ} : {E : Type ℓ} → Bool → E → Result E (Unit {ℓ})
guard_not bad e = if bad then err e else ok tt
