-- ===== src/Base/Results.antt =====
-- `anyhow::Result`: a value, or the error that ends the operation; `ensure` is the macro.
use mathlib.Core.Path.{◌≡◌, refl}
use mathlib.Core.Bool.{Bool, true, false}
use native.Mathlib.Omega.{arith}
use mathlib.Core.Option.{Option, none, some}

pub data Result {ℓ} (E : Type 0) (A : Type ℓ) : Type ℓ where
  ok : A → Result E A
  err : E → Result E A

module _ {E : Type 0} where
  abbrev pub ensure : Bool → E → Result E (Unit {0})
  ensure false e = err e
  ensure true e = ok tt

  -- `Option::context`
  abbrev pub or_err {ℓ} : {A : Type ℓ} → Option A → E → Result E A
  or_err none e = err e
  or_err (some a) e = ok a

module _ {ℓ κ} {E : Type 0} {A : Type ℓ} {B : Type κ} where
  -- `?`
  infixl 5 ◌>>=◌
  abbrev pub ◌>>=◌ : Result E A → (A → Result E B) → Result E B
  err e >>= f = err e
  ok a >>= f = f a

  pub >>=-eq-ok :
      (m : Result E A) (f : A → Result E B) {b : B}
      → (m >>= f) ≡ ok b
      → (a : A) × (m ≡ ok a) × (f a ≡ ok b)
  >>=-eq-ok (err e) f h = cc
  >>=-eq-ok (ok a) f h = (a, refl, h)

module _ {κ} {E : Type 0} {B : Type κ} where
  infixl 5 ◌>>◌
  abbrev pub ◌>>◌ : Result E (Unit {0}) → Result E B → Result E B
  check >> rest = check >>= λ _. rest

  -- A check that passes and what follows it.
  pub ensure-bind :
      (b : Bool) (e : E) (k : Result E B) {r : B}
      → (ensure b e >> k) ≡ ok r
      → (b ≡ true) × (k ≡ ok r)
  ensure-bind true e k h = (refl, h)
  ensure-bind false e k h = cc

pub ensure-ok : {E : Type 0} (b : Bool) (e : E) → ensure b e ≡ ok tt → b ≡ true
ensure-ok true e h = refl
ensure-ok false e h = cc

pub ensure-true : {E : Type 0} (b : Bool) (e : E) → b ≡ true → ensure b e ≡ ok tt
ensure-true true e h = refl
ensure-true false e h = cc

pub or_err-ok {ℓ} :
    {E : Type 0} {A : Type ℓ} (o : Option A) (e : E) {a : A} → or_err o e ≡ ok a → o ≡ some a
or_err-ok none e h = cc
or_err-ok (some a) e h = ground (arith, h)
