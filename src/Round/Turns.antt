-- ===== src/Round/Turns.antt =====
-- Steps after which more holds than before them, for actions of `Exec`.
use rowd.Base.{Result, ok, err, Bool, true, false, ◌≡◌, refl}
use rowd.Round.{Round, Halt}
use rowd.Round.Exec.{Exec, Halts, Keeps, resume, inspect, branch, when, pure, modify, ◌>>=◌}

-- From a state of `P`, `m` returns in one of `Q`, or stops in one of `E` for a reason of `H`.
abbrev pub Ends {ℓ} :
    {A : Type ℓ}
    → (Halt → Type 0)
    → (Round → Type 0)
    → (Round → Type 0)
    → Result Halt A
    → Round
    → Type 0
Ends H E Q (ok a) s = Q s
Ends H E Q (err h) s = E s × H h

pub record Turns {ℓ} {A : Type ℓ} (H : Halt → Type 0) (E P Q : Round → Type 0) (m : Exec A)
    : Type 0 where
  pub at : (s : Round) → P s → Ends H E Q (m s).0 (m s).1

keeps→ends {ℓ} :
    {A : Type ℓ} (H : Halt → Type 0) (E P : Round → Type 0) (r : Result Halt A) (s : Round)
    → ((t : Round) → P t → E t)
    → P s
    → Halts H r
    → Ends H E P r s
keeps→ends H E P (ok a) s w p h = p
keeps→ends H E P (err e) s w p h = (w s p, h)

module _ {ℓ} {A : Type ℓ} {H : Halt → Type 0} {E P : Round → Type 0} where
  pub Turns-keep : (m : Exec A) → ((s : Round) → P s → E s) → Keeps H P m → Turns H E P P m
  Turns-keep m w k = record {
    at = λ s p. keeps→ends H E P (m s).0 (m s).1 w (k.at s p).0 (k.at s p).1;
  }

ends→keeps {ℓ} :
    {A : Type ℓ} (H : Halt → Type 0) (P : Round → Type 0) (r : Result Halt A) (s : Round)
    → Ends H P P r s
    → P s × Halts H r
ends→keeps H P (ok a) s p = (p, tt)
ends→keeps H P (err e) s p = p

module _ {ℓ} {A : Type ℓ} {H : Halt → Type 0} {P : Round → Type 0} where
  pub Keeps-turn : (m : Exec A) → Turns H P P P m → Keeps H P m
  Keeps-turn m t = record { at = λ s p. ends→keeps H P (m s).0 (m s).1 (t.at s p) }

module _ {ℓ} {A : Type ℓ} {H : Halt → Type 0} {E P Q : Round → Type 0} where
  pub Turns-weaken :
      (P' : Round → Type 0) (m : Exec A)
      → ((s : Round) → P s → P' s)
      → Turns H E P' Q m
      → Turns H E P Q m
  Turns-weaken P' m w t = record { at = λ s p. t.at s (w s p) }

  pub Turns-inspect :
      (f : Round → Exec A)
      → ((s : Round) → P s → Ends H E Q (f s s).0 (f s s).1)
      → Turns H E P Q (inspect f)
  unfolding inspect
  Turns-inspect f h = record { at = h }

  pub Turns-branch :
      (b : Bool) (m n : Exec A)
      → (b ≡ true → Turns H E P Q m)
      → (b ≡ false → Turns H E P Q n)
      → Turns H E P Q (branch b m n)
  unfolding branch
  Turns-branch true m n km kn = km refl
  Turns-branch false m n km kn = kn refl

module _ {H : Halt → Type 0} {E P Q : Round → Type 0} where
  pub Turns-modify : (f : Round → Round) → ((s : Round) → P s → Q (f s)) → Turns H E P Q (modify f)
  unfolding modify
  Turns-modify f h = record { at = h }

resume-Ends {ℓ κ} :
    {A : Type ℓ} {B : Type κ} (H : Halt → Type 0) (E R Q : Round → Type 0) (f : A → Exec B)
    → ((a : A) → Turns H E Q R (f a))
    → (r : Result Halt A) (s : Round) → Ends H E Q r s
    → Ends H E R (resume r f s).0 (resume r f s).1
resume-Ends H E R Q f kf (ok a) s p = (kf a).at s p
resume-Ends H E R Q f kf (err e) s p = p

module _ {ℓ κ} {A : Type ℓ} {B : Type κ} {H : Halt → Type 0} {E P R : Round → Type 0} where
  pub Turns-bind :
      (Q : Round → Type 0) (m : Exec A) (f : A → Exec B)
      → Turns H E P Q m
      → ((a : A) → Turns H E Q R (f a))
      → Turns H E P R (m >>= f)
  unfolding ◌>>=◌
  Turns-bind Q m f km kf = record {
    at = λ s p. resume-Ends H E R Q f kf (m s).0 (m s).1 (km.at s p);
  }

then-Ends {ℓ} :
    {A : Type ℓ} (H : Halt → Type 0) (E Q R : Round → Type 0) (r : Result Halt A) (s : Round)
    → ((t : Round) → Q t → R t)
    → Ends H E Q r s
    → Ends H E R r s
then-Ends H E Q R (ok a) s w q = w s q
then-Ends H E Q R (err e) s w q = q

pub Turns-then {ℓ} :
    {A : Type ℓ} {H : Halt → Type 0} {E P Q R : Round → Type 0} {m : Exec A}
    → Turns H E P Q m
    → ((s : Round) → Q s → R s)
    → Turns H E P R m
Turns-then {H} {E} {Q} {R} {m} t w = record {
  at = λ s p. then-Ends H E Q R (m s).0 (m s).1 w (t.at s p);
}

pub when-Ends :
    (H : Halt → Type 0) (E Q : Round → Type 0) (b : Bool) (m : Exec (Unit {0})) (s : Round)
    → (b ≡ true → Ends H E Q (m s).0 (m s).1)
    → (b ≡ false → Q s)
    → Ends H E Q (when b m s).0 (when b m s).1
unfolding when pure
when-Ends H E Q true m s hm hn = hm refl
when-Ends H E Q false m s hm hn = hn refl
