-- ===== src/Ignore/Subtree.antt =====
-- Directories and what lies under them in `Ignore::matches` of crates/rowd-core/src/ignore.rs.
use rowd.Base.{
  ℕ, zero, suc, ◌-◌, ◌≤◌, ◌<◌, Text, codes, Bool, true, false, ◌||◌, ◌==◌, List, [], ◌∷◌, ◌++◌,
  length, take, any, length-append, text_eq, ◌≡◌, ◌≢◌, refl, Bool-cases, inl, inr, ap, arith,
}
use rowd.Paths.{split, prepend, slash}
use rowd.Model.Conflicts.{starts_with}
use rowd.Ignore.{
  matches, rule_matches, prefix_matches, any_upto, part_at, in_conflict_folder, is_private,
}

prepend-nonempty : (c : ℕ) (ps : List Text) → prepend c ps ≢ []
prepend-nonempty c [] = λ h. cc
prepend-nonempty c (p ∷ ps) = λ h. cc

split-nonempty : (d : ℕ) (s : Text) → split d s ≢ []
unfolding split
split-nonempty d [] = λ h. cc
split-nonempty d (c ∷ s) = ground (arith, prepend-nonempty c (split d s))

prepend-append : (c : ℕ) (ps qs : List Text) → ps ≢ [] → prepend c (ps ++ qs) ≡ prepend c ps ++ qs
prepend-append c [] qs n = absurd (n refl)
prepend-append c (p ∷ ps) qs n = refl

split-append : (d : ℕ) (s t : Text) → split d (s ++ (d ∷ t)) ≡ split d s ++ split d t
unfolding split
split-append d [] t = ground arith
split-append d (c ∷ s) t =
    let same = prepend-append c (split d s) (split d t) (split-nonempty d s) in
    ground (arith, split-append d s t, same)

any-append {ℓ} :
    {A : Type ℓ} (p : A → Bool) (xs ys : List A) → any p xs ≡ true → any p (xs ++ ys) ≡ true
any-append p [] ys h = cc
any-append p (x ∷ xs) ys h = ground (arith, any-append p xs ys)

any-weaken {ℓ} :
    {A : Type ℓ} (p q : A → Bool) (xs : List A)
    → ((x : A) → p x ≡ true → q x ≡ true)
    → any p xs ≡ true
    → any q xs ≡ true
any-weaken p q [] f h = cc
any-weaken p q (x ∷ xs) f h = ground (arith, any-weaken p q xs f, f x)

any_upto→some :
    (n : ℕ) (f : ℕ → Bool) → any_upto n f ≡ true → (i : ℕ) × (0 < i) × (i ≤ n) × (f i ≡ true)
unfolding any_upto
any_upto→some zero f h = cc
any_upto→some (suc n) f h = elim (Bool-cases (f (suc n))) [
  | inl here ↦ (suc n, omega arith, omega arith, here)
  | inr other ↦
      let (i, low, high, e) = any_upto→some n f (ground (arith, h, other)) in
      (i, low, omega (arith, high), e)
]

some→any_upto : (n : ℕ) (f : ℕ → Bool) (i : ℕ) → 0 < i → i ≤ n → f i ≡ true → any_upto n f ≡ true
unfolding any_upto
some→any_upto zero f i h k e = absurd (omega arith)
some→any_upto (suc n) f i h k e = ground (arith, some→any_upto n f i)

take-le {ℓ} : {A : Type ℓ} (n : ℕ) (xs ys : List A) → n ≤ length xs → take n (xs ++ ys) ≡ take n xs
take-le zero xs ys h = refl
take-le (suc n) [] ys h = absurd (omega arith)
take-le (suc n) (x ∷ xs) ys h = ap (λ l. x ∷ l) (take-le n xs ys (omega arith))

part_at-append : (i : ℕ) (xs ys : List Text) → i < length xs → part_at (xs ++ ys) i ≡ part_at xs i
unfolding part_at
part_at-append i [] ys h = absurd (omega arith)
part_at-append zero (x ∷ xs) ys h = refl
part_at-append (suc i) (x ∷ xs) ys h = part_at-append i xs ys (omega arith)

-- The parts of the directory itself match as before, and the directory is no longer the last part.
prefix_matches-append :
    (rule : Text) (directory : Bool) (xs ys : List Text) (i : ℕ)
    → 0 < i
    → i ≤ length xs
    → 0 < length ys
    → prefix_matches rule true xs i ≡ true
    → prefix_matches rule directory (xs ++ ys) i ≡ true
unfolding prefix_matches
prefix_matches-append rule directory xs ys i low high more h =
    let inner : i ≢ length (xs ++ ys) = omega (arith, length-append xs ys) in
    rw (take-le i xs ys high, part_at-append (i - 1) xs ys (omega arith)) (ground (arith, h, inner))

nonempty-length : (ps : List Text) → ps ≢ [] → 0 < length ps
nonempty-length [] n = absurd (n refl)
nonempty-length (p ∷ ps) n = omega arith

rule_matches-append :
    (path rest : Text) (directory : Bool) (rule : Text)
    → rule_matches path true rule ≡ true
    → rule_matches (path ++ (slash ∷ rest)) directory rule ≡ true
unfolding rule_matches
rule_matches-append path rest directory rule h =
    let xs = split slash path in
    let ys = split slash rest in
    let (i, low, high, e) = any_upto→some (length xs) (prefix_matches rule true xs) h in
    rw (split-append slash path rest) (
      some→any_upto (length (xs ++ ys)) _ i low (omega (arith, high, length-append xs ys)) (
        prefix_matches-append rule directory xs ys i low high
          (nonempty-length ys (split-nonempty slash rest)) e))

-- A text that goes on after a slash begins with a folder's name and a slash only if what stands
-- before the slash is that name, or begins so itself.
starts_with-folder :
    (path rest folder : Text)
    → any (λ c. c == slash) folder ≡ false
    → starts_with (path ++ (slash ∷ rest)) (folder ++ (slash ∷ [])) ≡ true
    → (text_eq path folder || starts_with path (folder ++ (slash ∷ []))) ≡ true
unfolding starts_with text_eq
starts_with-folder [] rest [] free h = refl
starts_with-folder [] rest (d ∷ folder) free h = ground (arith, free, h)
starts_with-folder (c ∷ path) rest [] free h = ground (arith, h)
starts_with-folder (c ∷ path) rest (d ∷ folder) free h =
    ground (arith, h, free, starts_with-folder path rest folder)

text_eq-slash :
    (path rest name : Text)
    → any (λ c. c == slash) name ≡ false
    → text_eq (path ++ (slash ∷ rest)) name ≡ false
unfolding text_eq
text_eq-slash [] rest [] free = refl
text_eq-slash [] rest (d ∷ name) free = ground (arith, free)
text_eq-slash (c ∷ path) rest [] free = refl
text_eq-slash (c ∷ path) rest (d ∷ name) free = ground (arith, free, text_eq-slash path rest name)

in_conflict_folder-append :
    (path rest : Text)
    → in_conflict_folder path ≡ false
    → in_conflict_folder (path ++ (slash ∷ rest)) ≡ false
unfolding in_conflict_folder
in_conflict_folder-append path rest h =
    let folder = starts_with-folder path rest (codes "Rowd Conflicts") refl in
    let name = text_eq-slash path rest (codes "Rowd Conflicts") refl in
    ground (arith, h, folder, name)

is_private-append :
    (path rest : Text)
    → text_eq path (codes ".rowdignore") ≡ false
    → is_private path ≡ true
    → is_private (path ++ (slash ∷ rest)) ≡ true
unfolding is_private
is_private-append path rest not_file h =
    let part = any-append (λ p. text_eq p (codes ".rowd")) (split slash path) (split slash rest) in
    rw (split-append slash path rest) (ground (arith, h, not_file, part))

-- When a directory is ignored, everything under it is, whatever the rules; the one name that is
-- ignored by itself, `.rowdignore`, is set apart.
pub matches-subtree :
    (rules : List Text) (path rest : Text) (directory : Bool)
    → text_eq path (codes ".rowdignore") ≡ false
    → matches rules path true ≡ true
    → matches rules (path ++ (slash ∷ rest)) directory ≡ true
unfolding matches
matches-subtree rules path rest directory not_file h =
    let outside = in_conflict_folder-append path rest in
    let by_rule = any-weaken _ _ rules (rule_matches-append path rest directory) in
    let private_part = is_private-append path rest not_file in
    ground (arith, h, outside, by_rule, private_part)
