-- ===== src/Ignore/Wildcard/Termination.antt =====
-- The fuel of `wildcard` of crates/rowd-core/src/ignore.rs.
use rowd.Base.{
  ℕ, zero, suc, ◌+◌, ◌*◌, ◌≤◌, ◌<◌, Text, Option, none, some, Bool, true, false, ◌==◌, [], ◌∷◌,
  length, if◌then◌else◌, ◌≡◌, refl, arith,
}
use native.Mathlib.Nat.{mul-le-mul_left}
use rowd.Ignore.Wildcard.Loop.{star, Back, only_stars, go_back, scan, wildcard}

-- The places left to retry at, times the pattern, and what is left of the pattern.
unfoldable pub Fuel : ℕ → ℕ → Text → Text → Back → Type 0
Fuel f k p t none = k * length t + length p < f
Fuel f k p t (some (bp, bt)) =
    (k * length bt + length p < f) × (length t ≤ length bt) × (length bp < k)

pub Fuel-byte :
    (f k : ℕ) (d c : ℕ) (p t : Text) (back : Back)
    → Fuel (suc f) k (d ∷ p) (c ∷ t) back
    → Fuel f k p t back
unfolding Fuel
Fuel-byte f k d c p t none h = omega arith
Fuel-byte f k d c p t (some (bp, bt)) h = omega arith

pub Fuel-star :
    (f k : ℕ) (d : ℕ) (p t : Text) (back : Back)
    → suc (length p) < k
    → Fuel (suc f) k (d ∷ p) t back
    → Fuel f k p t (some (p, t))
unfolding Fuel
Fuel-star f k d p t none lt h = omega arith
Fuel-star f k d p t (some (bp, bt)) lt h = omega (arith, mul-le-mul_left k h.1)

Returns : Option Bool → Type 0
Returns r = (b : Bool) × (r ≡ some b)

if-Returns : (b : Bool) (r q : Option Bool) → Returns r → Returns q → Returns (if b then r else q)
if-Returns true r q hr hq = hr
if-Returns false r q hr hq = hq

Runs : ℕ → Type 0
Runs f = (k : ℕ) (p t : Text) (b : Back) → length p < k → Fuel f k p t b → Returns (scan f p t b)

go_back-Returns :
    (f k : ℕ) (p : Text) (c : ℕ) (t : Text) (back : Back)
    → Fuel (suc f) k p (c ∷ t) back
    → Runs f
    → Returns (go_back back (scan f))
unfolding go_back Fuel Returns Runs
go_back-Returns f k p c t none h next = (false, refl)
go_back-Returns f k p c t (some (bp, [])) h next = absurd (omega arith)
go_back-Returns f k p c t (some (bp, x ∷ bt)) h next =
    next k bp bt (some (bp, bt)) h.2 (omega arith, omega arith, h.2)

returns : (f : ℕ) → Runs f
unfolding scan Fuel Returns Runs
returns zero k p t none lt h = absurd (omega arith)
returns zero k p t (some (bp, bt)) lt h = absurd (omega arith)
returns (suc f) k p [] back lt h = (only_stars p, refl)
returns (suc f) k [] (c ∷ t) back lt h = go_back-Returns f k [] c t back h (returns f)
returns (suc f) k (d ∷ p) (c ∷ t) back lt h =
    if-Returns (d == c) _ _ (returns f k p t back (omega arith) (Fuel-byte f k d c p t back h)) (
      if-Returns (d == star) _ _
        (returns f k p (c ∷ t) (some (p, c ∷ t)) (omega arith)
          (Fuel-star f k d p (c ∷ t) back lt h))
        (go_back-Returns f k (d ∷ p) c t back h (returns f)))

-- `wildcard` returns for every rule and text: the fuel that it is given is enough.
pub wildcard-returns : (pattern text : Text) → (b : Bool) × (wildcard pattern text ≡ some b)
unfolding wildcard Fuel Returns Runs
wildcard-returns pattern text =
    returns _ (length pattern + 1) pattern text none (omega arith) (omega arith)
