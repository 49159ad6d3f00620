-- ===== src/Paths/Safety.antt =====
-- An accepted path of crates/rowd-core/src/model.rs as a walk from the root of a Share.
use mathlib.Core.List.{reverse, reverse_aux}
use rowd.Base.{
  Text, codes, false, ◌||◌, List, [], ◌∷◌, All, if◌then◌else◌, text_eq, ok, >>=-eq-ok, ◌≡◌, refl,
  arith, Option, none, some,
}
use rowd.Paths.{validate_path, validate_parts, validate_part, split, slash}

-- What the file system makes of the components, from a directory whose way down is `at`, innermost
-- first: an empty component and `.` stay, `..` goes up, any other name goes down. `none` is a step
-- above the root.
unfoldable pub walk : List Text → List Text → Option (List Text)
walk at [] = some at
walk at (part ∷ parts) =
    let stay = walk at parts in
    let up : Option (List Text) = elim at [ [] ↦ none | _ ∷ above ↦ walk above parts ] in
    let down = walk (part ∷ at) parts in
    if text_eq part [] || text_eq part (codes ".")
    then stay
    else if text_eq part (codes "..")
    then up
    else down

abbrev IsName : Text → Type 0
IsName part =
    (text_eq part [] ≡ false)
    × (text_eq part (codes ".") ≡ false)
    × (text_eq part (codes "..") ≡ false)

validate_part-IsName : (part : Text) → validate_part part ≡ ok tt → IsName part
unfolding validate_part
validate_part-IsName part h = ground arith

validate_parts-IsName : (parts : List Text) → validate_parts parts ≡ ok tt → All IsName parts
unfolding validate_parts
validate_parts-IsName [] h = tt
validate_parts-IsName (part ∷ parts) h =
    let (u, first, rest) = >>=-eq-ok (validate_part part) _ h in
    (validate_part-IsName part (ground arith), validate_parts-IsName parts rest)

walk-names : (at parts : List Text) → All IsName parts → walk at parts ≡ some (reverse_aux parts at)
unfolding walk
walk-names at [] h = refl
walk-names at (part ∷ parts) h = ground (arith, walk-names (part ∷ at) parts h.1)

split-parts : (path : Text) → validate_path path ≡ ok tt → validate_parts (split slash path) ≡ ok tt
unfolding validate_path
split-parts path h = ground arith

-- An accepted path, walked down from the root component by component, ends at the file that its
-- components spell: no component is empty, stays, or goes up, so no prefix leaves the root.
pub walk-validate_path :
    (path : Text)
    → validate_path path ≡ ok tt
    → walk [] (split slash path) ≡ some (reverse (split slash path))
walk-validate_path path h =
    walk-names [] (split slash path) (validate_parts-IsName (split slash path) (split-parts path h))
