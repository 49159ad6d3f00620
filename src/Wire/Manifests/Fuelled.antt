-- ===== src/Wire/Manifests/Fuelled.antt =====
-- Readers of crates/rowd-core/src/protocol.rs and the fuel that they are given.
use rowd.Base.{ℕ, Bool, true, false, List, Result, ok, err, if◌then◌else◌, ◌≡◌, refl}
use rowd.Wire.{Reader, WireError, out_of_fuel, read_on, pure, lift, ◌>>=◌}

abbrev pub starves : WireError → Bool
starves out_of_fuel = true
starves _ = false

abbrev pub starved {ℓ} : {A : Type ℓ} → Result WireError A → Bool
starved (ok a) = false
starved (err e) = starves e

-- `m` never ends because fuel ran out.
pub record Fuelled {ℓ} {A : Type ℓ} (m : Reader A) : Type ℓ where
  pub at : (s : List ℕ) → starved (m s) ≡ false

module _ {ℓ} {A : Type ℓ} where
  pub Fuelled-pure : (a : A) → Fuelled (pure a)
  unfolding pure
  Fuelled-pure a = record { at = λ s. refl }

  pub Fuelled-lift : (r : Result WireError A) → starved r ≡ false → Fuelled (lift r)
  unfolding lift
  Fuelled-lift (ok a) n = record { at = λ s. refl }
  Fuelled-lift (err e) n = record { at = λ s. n }

  pub Fuelled-if :
      (b : Bool) (m n : Reader A) → Fuelled m → Fuelled n → Fuelled (if b then m else n)
  Fuelled-if true m n km kn = km
  Fuelled-if false m n km kn = kn

module _ {ℓ κ} {A : Type ℓ} {B : Type κ} where
  pub Fuelled-bind :
      (m : Reader A) (f : A → Reader B)
      → Fuelled m
      → ((a : A) (s u : List ℕ) → m s ≡ ok (a, u) → Fuelled (f a))
      → Fuelled (m >>= f)
  unfolding ◌>>=◌
  Fuelled-bind m f km kf = record { at = λ s. go s (m s) refl (km.at s) }
    where
      go :
          (s : List ℕ) (x : Result WireError (A × List ℕ))
          → m s ≡ x
          → starved x ≡ false
          → starved (read_on x f) ≡ false
      go s (ok (a, u)) e n = (kf a s u e).at u
      go s (err x) e n = n

  pub Fuelled-lift-bind :
      (r : Result WireError A) (f : A → Reader B)
      → starved r ≡ false
      → ((a : A) → r ≡ ok a → Fuelled (f a))
      → Fuelled (lift r >>= f)
  unfolding ◌>>=◌ lift
  Fuelled-lift-bind (ok a) f n k = record { at = λ s. (k a refl).at s }
  Fuelled-lift-bind (err e) f n k = record { at = λ s. n }
