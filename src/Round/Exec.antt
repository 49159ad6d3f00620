-- ===== src/Round/Exec.antt =====
-- Actions that change a `Round` and may stop it. What was done before a stop stays done, as on disk.
use rowd.Base.{Result, ok, err, Bool, true, false, Option, none, some, if◌then◌else◌, ◌≡◌, refl}
use rowd.Round.{Round, Halt, unwrapped_none}

abbrev pub Exec {ℓ} : Type ℓ → Type ℓ
Exec A = Round → Result Halt A × Round

module _ {ℓ} {A : Type ℓ} where
  unfoldable pub pure : A → Exec A
  pure a s = (ok a, s)

  unfoldable pub stop : Halt → Exec A
  stop h s = (err h, s)

  unfoldable pub lift : Result Halt A → Exec A
  lift r s = (r, s)

unfoldable pub modify : (Round → Round) → Exec (Unit {0})
modify f s = (ok tt, f s)

-- Reading the state.
unfoldable pub inspect {ℓ} : {A : Type ℓ} → (Round → Exec A) → Exec A
inspect f s = f s s

-- `if b { m } else { n }`, `if b { m }` and `unwrap`
unfoldable pub branch {ℓ} : {A : Type ℓ} → Bool → Exec A → Exec A → Exec A
branch b m n = if b then m else n

unfoldable pub when : Bool → Exec (Unit {0}) → Exec (Unit {0})
unfolding pure
when b m = if b then m else pure tt

unfoldable pub unwrap {ℓ} : {A : Type ℓ} → Option A → Exec A
unfolding pure stop
unwrap none = stop unwrapped_none
unwrap (some a) = pure a

module _ {ℓ κ} {A : Type ℓ} {B : Type κ} where
  abbrev pub resume : Result Halt A → (A → Exec B) → Exec B
  resume (ok a) f s = f a s
  resume (err h) f s = (err h, s)

  infixl 5 ◌>>=◌
  unfoldable pub ◌>>=◌ : Exec A → (A → Exec B) → Exec B
  unfolding pure stop lift modify inspect branch when unwrap
  ◌>>=◌ m f s = let (r, s') = m s in resume r f s'

infixl 5 ◌>>◌
abbrev pub ◌>>◌ {ℓ} : {B : Type ℓ} → Exec (Unit {0}) → Exec B → Exec B
m >> n = m >>= λ _. n

-- The reasons for which a result may be a stop.
abbrev pub Halts {ℓ} : {A : Type ℓ} → (Halt → Type 0) → Result Halt A → Type 0
Halts H (ok a) = Unit
Halts H (err h) = H h

abbrev pub Any : Halt → Type 0
Any h = Unit

-- The first of two errors.
abbrev pub prefer {ℓ} : {A : Type ℓ} → Result Halt A → Result Halt A → Result Halt A
prefer (ok a) q = q
prefer (err e) q = err e

prefer-Halts {ℓ} :
    {A : Type ℓ} (H : Halt → Type 0) (r q : Result Halt A)
    → Halts H r
    → Halts H q
    → Halts H (prefer r q)
prefer-Halts H (ok a) q hr hq = hq
prefer-Halts H (err e) q hr hq = hr

-- An action whose result gives way to an error that came from elsewhere.
unfoldable pub report {ℓ} : {A : Type ℓ} → Result Halt A → Exec A → Exec A
report r m s = let (q, s') = m s in (prefer r q, s')

-- Whether it returns or stops, `m` keeps `P`, and it stops only for a reason of `H`.
pub record Keeps {ℓ} {A : Type ℓ} (H : Halt → Type 0) (P : Round → Type 0) (m : Exec A)
    : Type 0 where
  pub at : (s : Round) → P s → P (m s).1 × Halts H (m s).0

module _ {ℓ} {A : Type ℓ} {H : Halt → Type 0} {P : Round → Type 0} where
  pub Keeps-pure : (a : A) → Keeps H P (pure a)
  unfolding pure
  Keeps-pure a = record { at = λ s h. (h, tt) }

  pub Keeps-stop : (h : Halt) → H h → Keeps H P (stop {A = A} h)
  unfolding stop
  Keeps-stop h r = record { at = λ s p. (p, r) }

  pub Keeps-lift : (r : Result Halt A) → Halts H r → Keeps H P (lift r)
  unfolding lift
  Keeps-lift r h = record { at = λ s p. (p, h) }

  pub Keeps-branch :
      (b : Bool) (m n : Exec A)
      → (b ≡ true → Keeps H P m)
      → (b ≡ false → Keeps H P n)
      → Keeps H P (branch b m n)
  unfolding branch
  Keeps-branch true m n km kn = km refl
  Keeps-branch false m n km kn = kn refl

  pub Keeps-report :
      (r : Result Halt A) (m : Exec A) → Halts H r → Keeps H P m → Keeps H P (report r m)
  unfolding report
  Keeps-report r m h km = record {
    at = λ s p. ((km.at s p).0, prefer-Halts H r (m s).0 h (km.at s p).1);
  }

  -- The rest may use the state that was read, and that it has `P`.
  pub Keeps-inspect :
      (f : Round → Exec A) → ((s : Round) → P s → Keeps H P (f s)) → Keeps H P (inspect f)
  unfolding inspect
  Keeps-inspect f h = record { at = λ s p. (h s p).at s p }

module _ {H : Halt → Type 0} {P : Round → Type 0} where
  pub Keeps-when :
      (b : Bool) (m : Exec (Unit {0})) → (b ≡ true → Keeps H P m) → Keeps H P (when b m)
  unfolding when
  Keeps-when true m km = km refl
  Keeps-when false m km = Keeps-pure tt

  pub Keeps-modify : (f : Round → Round) → ((s : Round) → P s → P (f s)) → Keeps H P (modify f)
  unfolding modify
  Keeps-modify f h = record { at = λ s p. (h s p, tt) }

module _ {ℓ κ} {A : Type ℓ} {B : Type κ} {H : Halt → Type 0} {P : Round → Type 0} where
  pub resume-Keeps :
      (f : A → Exec B)
      → ((a : A) → Keeps H P (f a))
      → (r : Result Halt A) (s : Round) → P s
      → Halts H r
      → P (resume r f s).1 × Halts H (resume r f s).0
  resume-Keeps f kf (ok a) s p h = (kf a).at s p
  resume-Keeps f kf (err e) s p h = (p, h)

  pub Keeps-bind :
      (m : Exec A) (f : A → Exec B)
      → Keeps H P m
      → ((a : A) → Keeps H P (f a))
      → Keeps H P (m >>= f)
  unfolding ◌>>=◌
  Keeps-bind m f km kf = record {
    at = λ s p. resume-Keeps f kf (m s).0 (m s).1 (km.at s p).0 (km.at s p).1;
  }

  -- A computed result is followed only where it is a value.
  pub Keeps-bind-lift :
      (r : Result Halt A) (f : A → Exec B)
      → Halts H r
      → ((a : A) → r ≡ ok a → Keeps H P (f a))
      → Keeps H P (lift r >>= f)
  unfolding ◌>>=◌
  Keeps-bind-lift (ok a) f h kf = kf a refl
  Keeps-bind-lift (err e) f h kf = Keeps-stop e h

  pub Keeps-unwrap :
      (o : Option A) (f : A → Exec B)
      → H unwrapped_none
      → ((a : A) → o ≡ some a → Keeps H P (f a))
      → Keeps H P (unwrap o >>= f)
  unfolding ◌>>=◌
  Keeps-unwrap none f h kf = Keeps-stop unwrapped_none h
  Keeps-unwrap (some a) f h kf = kf a refl

pub Halts-Any {ℓ} : {A : Type ℓ} (r : Result Halt A) → Halts Any r
Halts-Any (ok a) = tt
Halts-Any (err h) = tt

-- The state after a sequence, from what holds after its first part.
pub bind-at {ℓ κ} :
    {A : Type ℓ} {B : Type κ} (P Q : Round → Type 0) (m : Exec A) (f : A → Exec B) (s : Round)
    → ((r : Round) → Q r → P r)
    → ((a : A) (r : Round) → Q r → P (f a r).1)
    → Q (m s).1
    → P ((m >>= f) s).1
unfolding ◌>>=◌
bind-at {A} P Q m f s weaken rest q = go (m s).0 (m s).1 q
  where
    go : (r : Result Halt A) (s' : Round) → Q s' → P (resume r f s').1
    go (ok a) s' h = rest a s' h
    go (err e) s' h = weaken s' h
