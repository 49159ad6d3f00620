-- ===== src/Ignore/Wildcard/Loop.antt =====
-- `wildcard` of crates/rowd-core/src/ignore.rs. A position in the pattern or the text is the list of
-- bytes from there on.
use rowd.Base.{
  ℕ, zero, suc, ◌+◌, ◌*◌, Text, Option, none, some, Bool, true, false, ◌==◌, [], ◌∷◌, length,
  if◌then◌else◌,
}

abbrev pub star : ℕ
star = b'*'

-- `star` and `retry`: what follows the last star, and the text at which it was tried.
abbrev pub Back : Type 0
Back = Option (Text × Text)

-- The second loop, and `p == pattern.len()`.
unfoldable pub only_stars : Text → Bool
only_stars [] = true
only_stars (d ∷ p) = let rest = only_stars p in if d == star then rest else false

abbrev pub Next : Type 0
Next = Text → Text → Back → Option Bool

-- The last two branches of the first loop.
unfoldable pub go_back : Back → Next → Option Bool
go_back none next = some false
go_back (some (bp, [])) next = next bp [] (some (bp, []))
go_back (some (bp, x ∷ bt)) next = next bp bt (some (bp, bt))

-- The first loop, on fuel; `none` is fuel that ran out.
unfoldable pub scan : ℕ → Next
unfolding only_stars go_back
scan zero p t back = none
scan (suc f) p [] back = some (only_stars p)
scan (suc f) [] (c ∷ t) back = go_back back (scan f)
scan (suc f) (d ∷ p) (c ∷ t) back =
    let same = scan f p t back in
    let after_star = scan f p (c ∷ t) (some (p, c ∷ t)) in
    let again = go_back back (scan f) in
    if d == c then same else if d == star then after_star else again

unfoldable pub wildcard : Text → Text → Option Bool
unfolding scan
wildcard pattern text = scan ((length text + 1) * (length pattern + 1)) pattern text none
