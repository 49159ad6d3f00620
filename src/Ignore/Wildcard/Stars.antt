-- ===== src/Ignore/Wildcard/Stars.antt =====
-- `wildcard` of crates/rowd-core/src/ignore.rs on a text that has a star itself.
use rowd.Base.{ℕ, suc, ◌+◌, ◌*◌, Text, none, ap, length, arith, some, false, [], ◌∷◌, ◌≡◌, refl}
use rowd.Ignore.Wildcard.Loop.{star, scan, go_back, wildcard}
use rowd.Ignore.Wildcard.Glob.{Glob, done, none_left, one_more}

any_text : (t : Text) → Glob (star ∷ []) t
any_text [] = none_left refl done
any_text (c ∷ t) = one_more refl (any_text t)

-- The rule `*` does not match a name of two bytes or more that begins with a star, although it means
-- every name: the first byte is compared before the star of the rule is looked at, so the loop takes
-- the one for the other and has no star to go back to.
pub wildcard-misses_star :
    (c : ℕ) (text : Text)
    → (wildcard (star ∷ []) (star ∷ c ∷ text) ≡ some false) × Glob (star ∷ []) (star ∷ c ∷ text)
unfolding wildcard scan go_back
wildcard-misses_star c text =
    let enough : (suc (suc (length text)) + 1) * 2 ≡ suc (suc (length text * 2 + 4)) =
      omega arith in
    (ap (λ f. scan f (star ∷ []) (star ∷ c ∷ text) none) enough, any_text _)
