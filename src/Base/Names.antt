-- ===== src/Base/Names.antt =====
-- Lists of names read as sets (`BTreeSet<String>`), and counting in them.
use Prim.Native.Nat.{suc, ◌≤◌}
use mathlib.Core.Path.{◌≡◌, refl}
use mathlib.Core.Logic.{inl, inr}
use mathlib.Core.Bool.{Bool, true, false, ◌||◌}
use mathlib.Core.List.{List, [], ◌∷◌, ◌++◌}
use native.Mathlib.Omega.{arith}
use rowd.Base.Tests.{if◌then◌else◌, Bool-cases}
use rowd.Base.Lists.{length, any}
use rowd.Base.Texts.{Text, text_eq, text_eq_iff, text_eq_refl}

-- `contains`
unfoldable pub has : List Text → Text → Bool
has names name = any (text_eq name) names

-- Every name stands once.
abbrev pub IsOnce : List Text → Type 0
IsOnce [] = Unit
IsOnce (x ∷ xs) = (has xs x ≡ false) × IsOnce xs

abbrev pub IsWithin : List Text → List Text → Type 0
IsWithin xs ys = (name : Text) → has xs name ≡ true → has ys name ≡ true

remove_one : Text → List Text → List Text
remove_one x [] = []
remove_one x (y ∷ ys) = let rest = remove_one x ys in if text_eq x y then ys else y ∷ rest

length-remove_one :
    (x : Text) (ys : List Text) → has ys x ≡ true → suc (length (remove_one x ys)) ≡ length ys
unfolding has remove_one
length-remove_one x [] h = cc
length-remove_one x (y ∷ ys) h = ground (arith, length-remove_one x ys)

has-remove_one :
    (x z : Text) (ys : List Text)
    → text_eq z x ≡ false
    → has ys z ≡ true
    → has (remove_one x ys) z ≡ true
unfolding has remove_one
has-remove_one x z [] n h = cc
has-remove_one x z (y ∷ ys) n h =
    ground (arith, text_eq_iff x y, text_eq_iff z y, text_eq_iff z x, has-remove_one x z ys n)

has-apart : (xs : List Text) (z x : Text) → has xs z ≡ true → has xs x ≡ false → text_eq z x ≡ false
has-apart xs z x at away = ground (arith, text_eq_iff z x, at, away)

pub length-IsWithin : (xs ys : List Text) → IsOnce xs → IsWithin xs ys → length xs ≤ length ys
unfolding has
length-IsWithin [] ys once within = omega arith
length-IsWithin (x ∷ xs) ys once within =
    let here = within x (rw (text_eq_refl x) refl) in
    let rest =
      length-IsWithin xs (remove_one x ys) once.1 λ z at.
        has-remove_one x z ys (has-apart xs z x at once.0) (within z (ground (arith, at))) in
    omega (arith, rest, length-remove_one x ys here)

-- A set within another one that is not larger is all of it.
pub IsWithin-all :
    (xs ys : List Text) → IsOnce xs → IsWithin xs ys → length ys ≤ length xs → IsWithin ys xs
IsWithin-all xs ys once within small name at = elim (Bool-cases (has xs name)) [
  | inl here ↦ here
  | inr away ↦
      let fewer =
        length-IsWithin xs (remove_one name ys) once
          λ z there. has-remove_one name z ys (has-apart xs z name there away) (within z there) in
      absurd (omega (arith, fewer, small, length-remove_one name ys at))
]

pub has-append : (xs ys : List Text) (z : Text) → has (xs ++ ys) z ≡ (has xs z || has ys z)
unfolding has
has-append [] ys z = refl
has-append (x ∷ xs) ys z = ground (arith, has-append xs ys z)

-- A new name may join at the end.
pub IsOnce-append :
    (xs : List Text) (x : Text) → IsOnce xs → has xs x ≡ false → IsOnce (xs ++ (x ∷ []))
unfolding has
IsOnce-append [] x once new = (refl, tt)
IsOnce-append (y ∷ xs) x once new =
    let apart : has (x ∷ []) y ≡ false = ground (arith, text_eq_iff x y, text_eq_iff y x, new) in
    (
      ground (arith, once.0, apart, has-append xs (x ∷ []) y),
      IsOnce-append xs x once.1 (ground (arith, new)),
    )
