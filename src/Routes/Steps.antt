-- ===== src/Routes/Steps.antt =====
-- The steps of a handler that went through, and of one that did not.
use birthday_role.Prelude.{Bool, true, false, ◌≡◌, ◌≢◌, refl, ap, arith, Option, none, some}
use birthday_role.Prelude.Results.{Result, ok, err, err-inj}
use birthday_role.Errors.{AppError}
use birthday_role.Routes.{
  Store, Failure, Handler, and_then, attempt, found, computed, require, refused, panicked,
}
use mathlib.Core.Path.{subst}

-- A handler that went through attempted its first step with success.
pub attempt-eq-ok {ℓ κ} :
    {A : Type ℓ} {B : Type κ} (r : Result AppError A) (f : A → Handler B) (s s' : Store) (b : B)
    → and_then f (attempt r s) ≡ (ok b, s')
    → (a : A) × (r ≡ ok a) × (f a s ≡ (ok b, s'))
attempt-eq-ok (ok a) f s s' b e = (a, refl, e)
attempt-eq-ok (err x) f s s' b e = cc (ap (λ p. p.0) e)

pub found-eq-ok {ℓ κ} :
    {A : Type ℓ} {B : Type κ} (x : AppError) (o : Option A) (f : A → Handler B) (s s' : Store)
    (b : B)
    → and_then f (found x o s) ≡ (ok b, s')
    → (a : A) × (o ≡ some a) × (f a s ≡ (ok b, s'))
found-eq-ok x (some a) f s s' b e = (a, refl, e)
found-eq-ok x none f s s' b e = cc (ap (λ p. p.0) e)

-- An outcome that leaves the tables as they were, unless it is a success.
abbrev pub Kept {ℓ} : {A : Type ℓ} → Store → Result Failure A × Store → Type 0
Kept s (ok a, s') = Unit
Kept s (err e, s') = s' ≡ s

pub attempt-Kept {ℓ κ} :
    {A : Type ℓ} {B : Type κ} (r : Result AppError A) (f : A → Handler B) (s : Store)
    → ((a : A) → Kept s (f a s))
    → Kept s (and_then f (attempt r s))
attempt-Kept (ok a) f s h = h a
attempt-Kept (err e) f s h = refl

pub found-Kept {ℓ κ} :
    {A : Type ℓ} {B : Type κ} (x : AppError) (o : Option A) (f : A → Handler B) (s : Store)
    → ((a : A) → Kept s (f a s))
    → Kept s (and_then f (found x o s))
found-Kept x (some a) f s h = h a
found-Kept x none f s h = refl

pub computed-Kept {ℓ κ} :
    {A : Type ℓ} {B : Type κ} (o : Option A) (f : A → Handler B) (s : Store)
    → ((a : A) → Kept s (f a s))
    → Kept s (and_then f (computed o s))
computed-Kept (some a) f s h = h a
computed-Kept none f s h = refl

pub Kept-eq-err {ℓ} :
    {A : Type ℓ} (s s' : Store) (out : Result Failure A × Store) (e : Failure)
    → Kept s out
    → out ≡ (err e, s')
    → s' ≡ s
Kept-eq-err s s' out e h eq = subst (Kept s) eq h

pub computed-eq-ok {ℓ κ} :
    {A : Type ℓ} {B : Type κ} (o : Option A) (f : A → Handler B) (s s' : Store) (b : B)
    → and_then f (computed o s) ≡ (ok b, s')
    → (a : A) × (o ≡ some a) × (f a s ≡ (ok b, s'))
computed-eq-ok (some a) f s s' b e = (a, refl, e)
computed-eq-ok none f s s' b e = cc (ap (λ p. p.0) e)

-- What holds of the tables before a step, and after all that follows it, holds at the end.
module _ {ℓ κ μ} {A : Type ℓ} {B : Type κ} (P : Store → Type μ) (f : A → Handler B)
    (s : Store) where
  pub attempt-Holds :
      (r : Result AppError A)
      → P s
      → ((a : A) → r ≡ ok a → P (f a s).1)
      → P (and_then f (attempt r s)).1
  attempt-Holds (ok a) p h = h a refl
  attempt-Holds (err e) p h = p

  pub computed-Holds :
      (o : Option A) → P s → ((a : A) → o ≡ some a → P (f a s).1) → P (and_then f (computed o s)).1
  computed-Holds (some a) p h = h a refl
  computed-Holds none p h = p

no_panic : (e : AppError) → refused e ≢ panicked
no_panic e = ground arith

pub require-Holds {κ μ} :
    {B : Type κ} (P : Store → Type μ) (f : Unit {0} → Handler B) (s : Store) (x : AppError)
    (b : Bool)
    → P s
    → P (f tt s).1
    → P (and_then f (require x b s)).1
require-Holds P f s x true p h = h
require-Holds P f s x false p h = p

-- A step that does not panic, and after which nothing does.
module _ {ℓ κ} {A : Type ℓ} {B : Type κ} (f : A → Handler B) (s : Store) where
  pub attempt-Returns :
      (r : Result AppError A)
      → ((a : A) → r ≡ ok a → (f a s).0 ≢ err panicked)
      → (and_then f (attempt r s)).0 ≢ err panicked
  attempt-Returns (ok a) h p = h a refl p
  attempt-Returns (err e) h p = no_panic e (err-inj p)

  pub computed-Returns :
      (o : Option A) (a : A)
      → o ≡ some a
      → (f a s).0 ≢ err panicked
      → (and_then f (computed o s)).0 ≢ err panicked
  computed-Returns o a e h = rw e h
