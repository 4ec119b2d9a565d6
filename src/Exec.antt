-- ===== src/Exec.antt =====
-- Methods that change an object and may raise: what was written before the exception stays.
use mathlib.Core.Path.{◌≡◌, refl, ap}
use fidrouter.Base.{Result, ok, err, Error}

abbrev pub Exec {ℓ} : Type ℓ → Type ℓ → Type ℓ
Exec S A = S → Result A × S

abbrev pub after {ℓ} : {S A B : Type ℓ} → Result A → (A → Exec S B) → Exec S B
after (ok a) f s = f a s
after (err e) f s = (err e, s)

module _ {ℓ} {S A : Type ℓ} where
  abbrev pub pure : A → Exec S A
  pure a s = (ok a, s)

  abbrev pub lift : Result A → Exec S A
  lift r s = (r, s)

  abbrev pub gets : (S → A) → Exec S A
  gets f s = (ok (f s), s)

infixl 5 ◌>>=◌ ◌>>◌
abbrev pub ◌>>=◌ {ℓ} : {S A B : Type ℓ} → Exec S A → (A → Exec S B) → Exec S B
◌>>=◌ m f s = let (r, s') = m s in after r f s'

abbrev pub ◌>>◌ : {S B : Type 0} → Exec S (Unit {0}) → Exec S B → Exec S B
m >> k = m >>= λ _. k

abbrev pub modify : {S : Type 0} → (S → S) → Exec S (Unit {0})
modify f s = (ok tt, f s)

-- A run that returned, with the state that it left.
abbrev pub Returns {ℓ} : {S A : Type ℓ} → Exec S A → S → A → S → Type ℓ
Returns m s a s' = m s ≡ (ok a, s')

module _ {ℓ} {S A B : Type ℓ} where
  pub after-Returns :
      (r : Result A) (f : A → Exec S B) (s' : S) {b : B} {s'' : S}
      → after r f s' ≡ (ok b, s'')
      → (a : A) × (r ≡ ok a) × (f a s' ≡ (ok b, s''))
  after-Returns (ok a) f s' h = (a, refl, h)
  after-Returns (err e) f s' h = cc

  -- A bind that returned is two runs that returned.
  pub bind-Returns :
      (m : Exec S A) (f : A → Exec S B) (s : S) {b : B} {s'' : S}
      → Returns (m >>= f) s b s''
      → (a : A) × (s' : S) × Returns m s a s' × Returns (f a) s' b s''
  bind-Returns m f s h =
      let (a, e, h') = after-Returns (m s).0 f (m s).1 h in (a, (m s).1, λ i. (e i, (m s).1), h')

  -- A pure step that returned left the state alone.
  pub lift-Returns :
      (r : Result A) (f : A → Exec S B) (s : S) {b : B} {s'' : S}
      → Returns (lift r >>= f) s b s''
      → (a : A) × (r ≡ ok a) × Returns (f a) s b s''
  lift-Returns r f s h = after-Returns r f s h

-- Both outcomes of a step.
pub after-cases {ℓ κ} :
    {S A B : Type ℓ} (P : Result B × S → Type κ) (r : Result A) (f : A → Exec S B) (s : S)
    → ((e : Error) → r ≡ err e → P (err e, s))
    → ((a : A) → r ≡ ok a → P (f a s))
    → P (after r f s)
after-cases P (ok a) f s stops goes = goes a refl
after-cases P (err e) f s stops goes = stops e refl

pub ok-injective {ℓ} : {A : Type ℓ} (a b : A) → ok a ≡ ok b → a ≡ b
ok-injective a b h = cc

pub pure-Returns {ℓ} :
    {S A : Type ℓ} (a b : A) (s s' : S) → Returns (pure a) s b s' → (a ≡ b) × (s ≡ s')
pure-Returns a b s s' h = (ok-injective a b (ap (λ p. p.0) h), ap (λ p. p.1) h)

-- A property of states that a run keeps, whether it returns or raises.
abbrev pub Keeps {ℓ} : {S A : Type ℓ} → (S → Type ℓ) → Exec S A → Type ℓ
Keeps {S} P m = (s : S) → P s → P (m s).1

pub Keeps-after {ℓ} :
    {S A B : Type ℓ} (P : S → Type ℓ) (r : Result A) (f : A → Exec S B)
    → ((a : A) → Keeps P (f a))
    → Keeps P (after r f)
Keeps-after P (ok a) f kf s h = kf a s h
Keeps-after P (err e) f kf s h = h

pub Keeps-bind {ℓ} :
    {S A B : Type ℓ} (P : S → Type ℓ) (m : Exec S A) (f : A → Exec S B)
    → Keeps P m
    → ((a : A) → Keeps P (f a))
    → Keeps P (m >>= f)
Keeps-bind P m f km kf s h = Keeps-after P (m s).0 f kf (m s).1 (km s h)
