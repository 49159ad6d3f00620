-- ===== src/Model/Decision.antt =====
-- What `reconcile` of crates/rowd-core/src/model.rs decides, independently of the order of its tests.
use rowd.Base.{Text, Option, none, some, ◌≡◌, refl, inl, ◌≢◌, ◌⊎◌, ◌↔◌, arith, text_eq_iff}
use rowd.Model.{reconcile, opt_eq_iff}
use rowd.Model.Actions.{to_pc, mirror}

-- Neither device is privileged: exchanging the two sides exchanges the directions.
reconcile-mirror :
    (base pc android : Option Text) → reconcile base android pc ≡ mirror (reconcile base pc android)
unfolding reconcile
reconcile-mirror base none none = ground arith
reconcile-mirror base none (some b) = ground arith
reconcile-mirror base (some a) none = ground arith
reconcile-mirror base (some a) (some b) =
    ground
      (arith, text_eq_iff a b, text_eq_iff b a, opt_eq_iff (some a) base, opt_eq_iff (some b) base)

-- The PC copy is replaced exactly when the sides differ, the phone has the file, and the PC
-- either lacks it or still holds the committed base.
pub reconcile-to_pc_iff :
    (base pc android : Option Text)
    → (reconcile base pc android ≡ to_pc)
      ↔ ((android ≢ none) × (pc ≢ android) × ((pc ≡ none) ⊎ (pc ≡ base)))
unfolding reconcile
reconcile-to_pc_iff base none none = (ground arith, λ h. absurd (h.0 refl))
reconcile-to_pc_iff base none (some b) = (λ h. (ground arith, ground arith, inl refl), λ h. refl)
reconcile-to_pc_iff base (some a) none = (ground arith, λ h. absurd (h.0 refl))
reconcile-to_pc_iff base (some a) (some b) = (
  ground (arith, text_eq_iff a b, opt_eq_iff (some a) base, opt_eq_iff (some b) base),
  ground (arith, text_eq_iff a b, opt_eq_iff (some a) base, opt_eq_iff (some b) base),
)
