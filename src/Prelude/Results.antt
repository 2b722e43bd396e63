-- ===== src/Prelude/Results.antt =====
-- Rust's `Result`, as the source chains it with `?`.
use mathlib.Core.Path.{◌≡◌, refl}
use mathlib.Core.Logic.{◌⊎◌, inl, inr}
use mathlib.Core.Bool.{Bool, true, false}
use mathlib.Core.Option.{Option, none, some}

pub data Result {ℓ κ} (E : Type ℓ) (A : Type κ) : Type (ℓ ⊔ κ) where
  ok : A → Result E A
  err : E → Result E A

module _ {ℓ} {E : Type ℓ} where
  infixl 5 ◌>>=◌
  abbrev pub ◌>>=◌ {κ μ} : {A : Type κ} {B : Type μ} → Result E A → (A → Result E B) → Result E B
  ok a >>= f = f a
  err e >>= f = err e

  abbrev pub ok_or {κ} : {A : Type κ} → E → Option A → Result E A
  ok_or e none = err e
  ok_or e (some a) = ok a

  -- An early `return Err(e)`.
  abbrev pub refuse_if : Bool → E → Result {ℓ, 0} E Unit
  refuse_if true e = err e
  refuse_if false e = ok tt

  -- A chain that went through went through its first step.
  pub >>=-eq-ok {κ μ} :
      {A : Type κ} {B : Type μ} (r : Result E A) (f : A → Result E B) (b : B)
      → r >>= f ≡ ok b
      → (a : A) × (r ≡ ok a) × (f a ≡ ok b)
  >>=-eq-ok (ok a) f b e = (a, refl, e)
  >>=-eq-ok (err x) f b e = cc

  pub ok_or-eq-ok {κ} : {A : Type κ} (e : E) (o : Option A) (a : A) → ok_or e o ≡ ok a → o ≡ some a
  ok_or-eq-ok e none a h = cc
  ok_or-eq-ok e (some b) a h = cc

  pub refuse_if-eq-ok : (b : Bool) (e : E) (u : Unit) → refuse_if b e ≡ ok u → b ≡ false
  refuse_if-eq-ok true e u h = cc
  refuse_if-eq-ok false e u h = refl

  pub ok-inj {κ} : {A : Type κ} {a b : A} → ◌≡◌ {A = Result E A} (ok a) (ok b) → a ≡ b
  ok-inj h = cc

  pub err-inj {κ} : {A : Type κ} {x y : E} → ◌≡◌ {A = Result E A} (err x) (err y) → x ≡ y
  err-inj h = cc

  pub Result-cases {κ} :
      {A : Type κ} (r : Result E A) → ((a : A) × (r ≡ ok a)) ⊎ ((e : E) × (r ≡ err e))
  Result-cases (ok a) = inl (a, refl)
  Result-cases (err e) = inr (e, refl)
