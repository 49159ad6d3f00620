-- ===== src/Responder/Gives.antt =====
-- What every success of a handler of crates/rowd-core/src/sync.rs gives, by the parts of the handler.
use rowd.Base.{
  Bool, true, false, Result, ok, err, ensure, ensure-ok, if◌then◌else◌, ◌≡◌, refl, subst,
}
use rowd.Responder.{
  RespondError, StoreError, other_work, failed, Act, pure, check, after, ◌>>=◌, ◌>>◌, or_deferred,
  catches,
}

-- Whatever the store, a success of `m` has P.
pub record Gives {S A : Type 0} (P : A → Type 0) (m : Act S A) : Type 0 where
  pub on_success : (s t : S) (a : A) → m s ≡ (ok a, t) → P a

module _ {S A : Type 0} where
  pub pure-Gives : (P : A → Type 0) (a : A) → P a → Gives P (pure {S = S} a)
  pure-Gives P a h = record { on_success = λ s t b e. let same : a ≡ b = cc in subst P same h }

  pub err-Gives : (P : A → Type 0) (e : RespondError) → Gives P (check {S = S} (err e))
  err-Gives P e = record { on_success = λ s t b h. absurd (fails s t b h) }
    where
      fails : (s t : S) (b : A) → check {S = S} (err e) s ≡ (ok b, t) → ⊥
      fails s t b h = cc

module _ {S A B : Type 0} where
  -- A part whose value does not matter.
  pub >>=-Gives :
      (P : B → Type 0) (m : Act S A) (f : A → Act S B)
      → ((a : A) → Gives P (f a))
      → Gives P (m >>= f)
  unfolding ◌>>=◌
  >>=-Gives P m f h = record { on_success = λ s t b e. go t b (m s) e }
    where
      go : (t : S) (b : B) (r : Result RespondError A × S) → after f r ≡ (ok b, t) → P b
      go t b (ok a, u) e = (h a).on_success u t b e
      go t b (err x, u) e = cc

  -- A part that has a property of its own.
  pub bind-Gives :
      (Q : A → Type 0) (P : B → Type 0) (m : Act S A) (f : A → Act S B)
      → Gives Q m
      → ((a : A) → Q a → Gives P (f a))
      → Gives P (m >>= f)
  unfolding ◌>>=◌
  bind-Gives Q P m f hm hf = record { on_success = λ s t b e. go s t b (m s) refl e }
    where
      go : (s t : S) (b : B) (r : Result RespondError A × S) → m s ≡ r → after f r ≡ (ok b, t) → P b
      go s t b (ok a, u) is e = (hf a (hm.on_success s u a is)).on_success u t b e
      go s t b (err x, u) is e = cc

  -- A check whose result is read.
  pub check-Gives :
      (P : B → Type 0) (r : Result RespondError A) (f : A → Act S B)
      → ((a : A) → r ≡ ok a → Gives P (f a))
      → Gives P (check r >>= f)
  unfolding ◌>>=◌
  check-Gives P r f h = record { on_success = λ s t b e. go s t b r refl e }
    where
      go : (s t : S) (b : B) (q : Result RespondError A) → r ≡ q → after f (q, s) ≡ (ok b, t) → P b
      go s t b (ok a) is e = (h a is).on_success s t b e
      go s t b (err x) is e = cc

  pub or_deferred-Gives :
      (P : B → Type 0) (m : S → Result StoreError A × S) (f : A → Act S B) (g : Act S B)
      → ((a : A) → Gives P (f a))
      → Gives P g
      → Gives P (or_deferred m f g)
  unfolding or_deferred
  or_deferred-Gives P m f g hf hg = record { on_success = λ s t b e. go t b (m s) e }
    where
      go : (t : S) (b : B) (r : Result StoreError A × S) → catches f g r ≡ (ok b, t) → P b
      go t b (ok a, u) e = (hf a).on_success u t b e
      go t b (err other_work, u) e = hg.on_success u t b e
      go t b (err (failed x), u) e = cc

module _ {S B : Type 0} where
  pub ensure-Gives :
      (P : B → Type 0) (c : Bool) (e : RespondError) (k : Act S B)
      → (c ≡ true → Gives P k)
      → Gives P (check (ensure c e) >> k)
  ensure-Gives P c e k h =
      check-Gives P (ensure c e) (λ _. k) λ _ passes. h (ensure-ok c e (is-ok passes))
    where
      is-ok : {u : Unit {0}} → ensure c e ≡ ok u → ensure c e ≡ ok tt
      is-ok h = h

  pub then-Gives :
      (P : B → Type 0) (m : Act S (Unit {0})) (k : Act S B) → Gives P k → Gives P (m >> k)
  then-Gives P m k h = >>=-Gives P m (λ _. k) λ _. h

  pub if-Gives :
      (P : B → Type 0) (c : Bool) (k l : Act S B)
      → Gives P k
      → Gives P l
      → Gives P (if c then k else l)
  if-Gives P true k l hk hl = hk
  if-Gives P false k l hk hl = hl
