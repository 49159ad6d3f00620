-- ===== src/Ignore/Wildcard/Glob.antt =====
-- What a rule of `.rowdignore` means: `*` stands for any run of bytes, any other byte for itself.
use rowd.Base.{ℕ, Text, true, [], ◌∷◌, ◌≡◌, ◌≢◌, refl, arith}
use rowd.Ignore.Wildcard.Loop.{star, only_stars}

pub data Glob : Text → Text → Type 0 where
  done : Glob [] []
  byte : {d : ℕ} {p t : Text} → d ≢ star → Glob p t → Glob (d ∷ p) (d ∷ t)
  none_left : {d : ℕ} {p t : Text} → d ≡ star → Glob p t → Glob (d ∷ p) t
  one_more : {d c : ℕ} {p t : Text} → d ≡ star → Glob (d ∷ p) t → Glob (d ∷ p) (c ∷ t)

-- Any run of bytes, then a match of `p`: what a star before `p` means.
pub data Later (p : Text) : Text → Type 0 where
  now : {t : Text} → Glob p t → Later p t
  skip : {c : ℕ} {t : Text} → Later p t → Later p (c ∷ t)

pub Later→Glob : {d : ℕ} {p t : Text} → d ≡ star → Later p t → Glob (d ∷ p) t
Later→Glob e (now g) = none_left e g
Later→Glob e (skip l) = one_more e (Later→Glob e l)

pub Glob→Later : {d : ℕ} {p t : Text} → d ≡ star → Glob (d ∷ p) t → Later p t
Glob→Later e (byte n g) = absurd (n e)
Glob→Later e (none_left q g) = now g
Glob→Later e (one_more q g) = skip (Glob→Later e g)

-- At the end of the text only stars match.
pub only_stars→Glob : (p : Text) → only_stars p ≡ true → Glob p []
unfolding only_stars
only_stars→Glob [] h = done
only_stars→Glob (d ∷ p) h = none_left (ground arith) (only_stars→Glob p (ground arith))

pub Glob→only_stars : {p : Text} → Glob p [] → only_stars p ≡ true
unfolding only_stars
Glob→only_stars done = refl
Glob→only_stars (none_left e g) = ground (arith, Glob→only_stars g)

-- The first byte of a match.
pub Glob-byte : {d c : ℕ} {p t : Text} → Glob (d ∷ p) (c ∷ t) → d ≢ star → (d ≡ c) × Glob p t
Glob-byte (byte n g) m = (refl, g)
Glob-byte (none_left e g) m = absurd (m e)
Glob-byte (one_more e g) m = absurd (m e)

-- Where a run may be skipped before a byte and a match of `p`, it may be skipped before `p` after
-- that byte: why no star but the last has to be tried again.
pub Later-byte : {p : Text} {d c : ℕ} (t : Text) → d ≢ star → Later (d ∷ p) (c ∷ t) → Later p t
Later-byte t m (now g) = now (Glob-byte g m).1
Later-byte [] m (skip (now (none_left e g))) = absurd (m e)
Later-byte (x ∷ t) m (skip l) = skip (Later-byte t m l)

pub Later-star : {d : ℕ} {p t : Text} → d ≡ star → Later (d ∷ p) t → Later p t
Later-star e (now g) = Glob→Later e g
Later-star e (skip l) = skip (Later-star e l)

-- A match that does not begin here begins further on.
pub Later-next : {p : Text} {c : ℕ} {t : Text} → Later p (c ∷ t) → ¬ Glob p (c ∷ t) → Later p t
Later-next (now g) n = absurd (n g)
Later-next (skip l) n = l

pub Later-end : {p : Text} → Later p [] → Glob p []
Later-end (now g) = g
