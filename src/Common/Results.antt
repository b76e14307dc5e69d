-- ===== src/Common/Results.antt =====
-- Fallible code: the `Result` of the source with its `?` as a bind, and the same over a state that
-- an error leaves as the code left it.
use mathlib.Core.Path.{◌≡◌, refl, sym, ap, subst}

pub data Result {ℓ} (E A : Type ℓ) : Type ℓ where
  ok : A → Result E A
  err : E → Result E A

-- An action over a state. What was written before an error stays written.
abbrev pub Exec {ℓ} : Type ℓ → Type ℓ → Type ℓ → Type ℓ
Exec S E A = S → Result E A × S

module _ {ℓ} {S E A B : Type ℓ} where
  abbrev pub continue : Result E A → (A → Exec S E B) → Exec S E B
  continue (ok a) f s = f a s
  continue (err e) f s = (err e, s)

  infixl 5 ◌>>=◌ ◌>>◌
  abbrev pub ◌>>=◌ : Exec S E A → (A → Exec S E B) → Exec S E B
  ◌>>=◌ m f s = let (r, s') = m s in continue r f s'

  abbrev pub ◌>>◌ : Exec S E A → Exec S E B → Exec S E B
  m >> n = m >>= λ _. n

  continue-ok :
      (r : Result E A) (f : A → Exec S E B) (s : S) {b : B}
      → (continue r f s).0 ≡ ok b
      → (a : A) × (r ≡ ok a) × ((f a s).0 ≡ ok b)
  continue-ok (ok a) f s h = (a, refl, h)
  continue-ok (err e) f s h = cc

  -- A block that succeeds has a first step that succeeds.
  pub bind-ok :
      (m : Exec S E A) (f : A → Exec S E B) (s : S) {b : B}
      → ((m >>= f) s).0 ≡ ok b
      → (a : A) × ((m s).0 ≡ ok a) × ((f a (m s).1).0 ≡ ok b)
  bind-ok m f s h = continue-ok (m s).0 f (m s).1 h

module _ {ℓ} {S E A : Type ℓ} where
  abbrev pub pure : A → Exec S E A
  pure a s = (ok a, s)

  abbrev pub raise : E → Exec S E A
  raise e s = (err e, s)

  abbrev pub lift : Result E A → Exec S E A
  lift r s = (r, s)

module _ {ℓ} {S E : Type ℓ} (P : S → Type ℓ) where
  -- A step that a property of the state survives, whether it fails or not.
  abbrev pub Keeps : {A : Type ℓ} → Exec S E A → Type ℓ
  Keeps m = (s : S) → P s → P (m s).1

  continue-Keeps :
      {A B : Type ℓ} (r : Result E A) (f : A → Exec S E B) (s : S)
      → ((a : A) → Keeps (f a))
      → P s
      → P (continue r f s).1
  continue-Keeps (ok a) f s keeps h = keeps a s h
  continue-Keeps (err e) f s keeps h = h

  pub bind-Keeps :
      {A B : Type ℓ} (m : Exec S E A) (f : A → Exec S E B)
      → Keeps m
      → ((a : A) → Keeps (f a))
      → Keeps (m >>= f)
  bind-Keeps m f first rest s h = continue-Keeps (m s).0 f (m s).1 rest (first s h)

ok_inj {ℓ} : {E A : Type ℓ} {a b : A} → Path (Result E A) (ok a) (ok b) → a ≡ b
ok_inj {a = a} h = ap (λ r. elim r [ ok x ↦ x | err e ↦ a ]) h

module _ {ℓ} {S E : Type ℓ} where
  -- A step that succeeds, with a value and a state of which something holds.
  abbrev pub Yields : {A : Type ℓ} → (A → S → Type ℓ) → Result E A × S → Type ℓ
  Yields {A} P r = (a : A) × (r.0 ≡ ok a) × P a r.1

  continue-Yields :
      {A B : Type ℓ} (P : A → S → Type ℓ) (Q : B → S → Type ℓ) (r : Result E A) (f : A → Exec S E B)
      (s : S)
      → Yields P (r, s)
      → ((a : A) (s' : S) → P a s' → Yields Q (f a s'))
      → Yields Q (continue r f s)
  continue-Yields P Q (ok a) f s (b, same, h) rest =
      rest a s (subst (λ x. P x s) (sym (ok_inj same)) h)
  continue-Yields P Q (err e) f s (b, same, h) rest = cc

  pub bind-Yields :
      {A B : Type ℓ} (P : A → S → Type ℓ) (Q : B → S → Type ℓ) (m : Exec S E A) (f : A → Exec S E B)
      (s : S)
      → Yields P (m s)
      → ((a : A) (s' : S) → P a s' → Yields Q (f a s'))
      → Yields Q ((m >>= f) s)
  bind-Yields P Q m f s h rest = continue-Yields P Q (m s).0 f (m s).1 h rest

module _ {ℓ} {S E E' A : Type ℓ} where
  -- `.map_err(…)`, of what an error of another type becomes.
  abbrev pub map_err : (E → E') → Exec S E A → Exec S E' A
  map_err f m s = let (r, s') = m s in (elim r [ ok a ↦ ok a | err e ↦ err (f e) ], s')

-- A first step whose outcome is known.
pub bind_step {ℓ} :
    {S E A B : Type ℓ} (m : Exec S E A) (f : A → Exec S E B) {s s' : S} {a : A}
    → m s ≡ (ok a, s')
    → (m >>= f) s ≡ f a s'
bind_step m f h = ap (λ r. continue r.0 f r.1) h

pub map_err_step {ℓ} :
    {S E E' A : Type ℓ} (g : E → E') (m : Exec S E A) {s s' : S} {a : A}
    → m s ≡ (ok a, s')
    → map_err g m s ≡ (ok a, s')
map_err_step g m h = ap (λ r. (elim r.0 [ ok a ↦ ok a | err e ↦ err (g e) ], r.1)) h

pub map_err-Yields {ℓ} :
    {S E E' A : Type ℓ} (P : A → S → Type ℓ) (g : E → E') (m : Exec S E A) (s : S)
    → Yields P (m s)
    → Yields P (map_err g m s)
map_err-Yields P g m s (a, same, h) =
    (a, ap (λ r. elim r [ ok x ↦ ok x | err e ↦ err (g e) ]) same, h)
