-- ===== src/Wire/Locality.antt =====
-- Readers of crates/rowd-core/src/protocol.rs look no further than what they take.
use rowd.Base.{
  ℕ, zero, suc, ◌≤◌, List, [], ◌∷◌, ◌++◌, length, length-append, take, drop, leb, leb→le, Bool,
  true, false, Bool-cases, inl, inr, Result, ok, err, if◌then◌else◌, ◌≡◌, ◌≢◌, refl, ap, ◌∙◌, arith,
  Text,
}
use rowd.Base.Readers.{step}
use rowd.Wire.{
  unexpected_eof, read_on, Json, Reader, WireError, read_exact, receive, receive_for, pure, lift,
  ◌>>=◌,
}

-- What follows what was read makes no difference and is left.
pub record Local {ℓ} {A : Type ℓ} (m : Reader A) : Type ℓ where
  pub at : (s t : List ℕ) (a : A) (r : List ℕ) → m s ≡ ok (a, r) → m (s ++ t) ≡ ok (a, r ++ t)

module _ {ℓ} {A : Type ℓ} where
  abbrev further : List ℕ → Result WireError (A × List ℕ) → Result WireError (A × List ℕ)
  further t (ok (a, r)) = ok (a, r ++ t)
  further t (err e) = err e

  pub Local-pure : (a : A) → Local (pure a)
  unfolding pure
  Local-pure a = record { at = λ s t b r h. ap (further t) h }

  pub Local-lift : (r : Result WireError A) → Local (lift r)
  unfolding lift
  Local-lift (ok a) = record { at = λ s t b r h. ap (further t) h }
  Local-lift (err e) = record { at = λ s t b r h. cc }

  pub Local-if : (b : Bool) (m n : Reader A) → Local m → Local n → Local (if b then m else n)
  Local-if true m n km kn = km
  Local-if false m n km kn = kn

module _ {ℓ κ} {A : Type ℓ} {B : Type κ} where
  pub read-ok :
      (m : Reader A) (f : A → Reader B) (s : List ℕ) (b : B) (r : List ℕ)
      → (m >>= f) s ≡ ok (b, r)
      → (a : A) × (u : List ℕ) × (m s ≡ ok (a, u)) × (f a u ≡ ok (b, r))
  unfolding ◌>>=◌
  read-ok m f s b r h = go (m s) refl h
    where
      go :
          (x : Result WireError (A × List ℕ))
          → m s ≡ x
          → read_on x f ≡ ok (b, r)
          → (a : A) × (u : List ℕ) × (m s ≡ ok (a, u)) × (f a u ≡ ok (b, r))
      go (ok (a, u)) e k = (a, u, e, k)
      go (err x) e k = cc

  pub Local-bind :
      (m : Reader A) (f : A → Reader B) → Local m → ((a : A) → Local (f a)) → Local (m >>= f)
  Local-bind m f km kf = record {
    at = λ s t b r h.
        let (a, u, first, rest) = read-ok m f s b r h in
        step m f (s ++ t) (km.at s t a u first) ∙ (kf a).at u t b r rest;
  }

take-local {ℓ} : {A : Type ℓ} (n : ℕ) (s t : List A) → n ≤ length s → take n (s ++ t) ≡ take n s
take-local zero s t h = refl
take-local (suc n) [] t h = absurd (omega (arith, h))
take-local (suc n) (x ∷ s) t h = ap (λ u. x ∷ u) (take-local n s t (omega (arith, h)))

drop-local {ℓ} :
    {A : Type ℓ} (n : ℕ) (s t : List A) → n ≤ length s → drop n (s ++ t) ≡ drop n s ++ t
drop-local zero s t h = refl
drop-local (suc n) [] t h = absurd (omega (arith, h))
drop-local (suc n) (x ∷ s) t h = drop-local n s t (omega (arith, h))

too_short :
    (n : ℕ) (s : List ℕ) {x : List ℕ × List ℕ}
    → leb n (length s) ≡ false
    → read_exact unexpected_eof n s ≢ ok x
unfolding read_exact
too_short n s short h = ground (arith, short, h)

pub read_exact-Local : (n : ℕ) → Local (read_exact unexpected_eof n)
unfolding read_exact
read_exact-Local n = record {
  at = λ s t a r h. elim (Bool-cases (leb n (length s))) [
    | inl fits ↦
        let long : leb n (length (s ++ t)) ≡ true = ground (arith, fits, length-append s t) in
        let enough = leb→le n (length s) fits in
        rw (long, take-local n s t enough, drop-local n s t enough) (ap (further t) (rw fits at h))
    | inr short ↦ absurd (too_short n s short h)
  ];
}

module _ (json : Json) where
  pub receive-Local : Local (receive json)
  unfolding receive
  receive-Local = Local-bind _ _ (read_exact-Local 4) λ len. Local-bind _ _ (Local-lift _) λ _.
      Local-bind _ _ (read_exact-Local _) λ bytes. Local-bind _ _ (Local-lift _) λ m. Local-lift _

  pub receive_for-Local : (share : Text) → Local (receive_for json share)
  unfolding receive_for
  receive_for-Local share = Local-bind _ _ receive-Local λ m. Local-lift _
