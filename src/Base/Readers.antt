-- ===== src/Base/Readers.antt =====
-- Readers of a stream of bytes that may fail, and `Read::read_exact`.
use Prim.Native.Nat.{ℕ}
use mathlib.Core.Path.{◌≡◌, refl, sym}
use mathlib.Core.List.{List, ◌++◌}
use native.Mathlib.Omega.{arith}
use rowd.Base.Tests.{leb, if◌then◌else◌}
use rowd.Base.Lists.{length, take, drop, length-append, take-append, drop-append}
use rowd.Base.Results.{Result, ok, err}

-- A value from the front of a stream, and the rest of it.
abbrev pub Reader {ℓ} : Type 0 → Type ℓ → Type ℓ
Reader E A = List ℕ → Result E (A × List ℕ)

module _ {ℓ κ} {E : Type 0} {A : Type ℓ} {B : Type κ} where
  abbrev pub read_on : Result E (A × List ℕ) → (A → Reader E B) → Result E (B × List ℕ)
  read_on (ok (a, s)) f = f a s
  read_on (err e) f = err e

  infixl 5 ◌>>=◌
  unfoldable pub ◌>>=◌ : Reader E A → (A → Reader E B) → Reader E B
  ◌>>=◌ m f s = read_on (m s) f

module _ {ℓ} {E : Type 0} {A : Type ℓ} where
  unfoldable pub pure : A → Reader E A
  pure a s = ok (a, s)

  abbrev pub with_rest : Result E A → List ℕ → Result E (A × List ℕ)
  with_rest (ok a) s = ok (a, s)
  with_rest (err e) s = err e

  unfoldable pub lift : Result E A → Reader E A
  lift r s = with_rest r s

infixl 5 ◌>>◌
abbrev pub ◌>>◌ {ℓ} : {E : Type 0} {B : Type ℓ} → Reader E (Unit {0}) → Reader E B → Reader E B
m >> n = m >>= λ _. n

unfoldable pub read_exact : {E : Type 0} → E → ℕ → Reader E (List ℕ)
read_exact eof n s = if leb n (length s) then ok (take n s, drop n s) else err eof

pub read_exact-append :
    {E : Type 0} (eof : E) (bs rest : List ℕ)
    → read_exact eof (length bs) (bs ++ rest) ≡ ok (bs, rest)
unfolding read_exact
read_exact-append eof bs rest =
    rw (take-append bs rest, drop-append bs rest, length-append bs rest) (ground arith)

pub read_exact-length :
    {E : Type 0} (eof : E) (n : ℕ) (bs rest : List ℕ)
    → length bs ≡ n
    → read_exact eof n (bs ++ rest) ≡ ok (bs, rest)
read_exact-length eof n bs rest e = rw (sym e) (read_exact-append eof bs rest)

-- One reader after another.
module _ {ℓ κ} {E : Type 0} {A : Type ℓ} {B : Type κ} where
  pub step :
      (m : Reader E A) (f : A → Reader E B) {a : A} (s : List ℕ) {r : List ℕ}
      → m s ≡ ok (a, r)
      → (m >>= f) s ≡ f a r
  unfolding ◌>>=◌
  step m f s e = rw e refl

  pub step-lift :
      (r : Result E A) (f : A → Reader E B) {a : A} (s : List ℕ)
      → r ≡ ok a
      → (lift r >>= f) s ≡ f a s
  unfolding ◌>>=◌ lift
  step-lift r f s e = rw e refl
