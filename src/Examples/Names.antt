-- ===== src/Examples/Names.antt =====
-- Paths, decisions and rules of `.rowdignore` on concrete texts: model.rs and ignore.rs of
-- crates/rowd-core/src.
use mathlib.Core.List.{reverse}
use rowd.Base.{
  Text, codes, none, some, Bool, true, false, List, [], ◌∷◌, ◌++◌, ◌≡◌, ◌↔◌, refl, ok, err, text_eq,
  arith,
}
use rowd.Config.{bidirectional}
use rowd.Model.{Entry}
use rowd.Model.Conflicts.{starts_with}
use rowd.Paths.{validate_path, split, slash, unsafe_path, reserved_path, reserved_filename}
use rowd.Paths.Safety.{walk, walk-validate_path}
use rowd.Round.Decide.{decide}
use rowd.Round.Windows.Sides.{Present, decide-Present}
use rowd.Ignore.{matches, parse}
use rowd.Ignore.Subtree.{matches-subtree}
use rowd.Ignore.Wildcard.Loop.{wildcard}
use rowd.Ignore.Wildcard.Glob.{Glob}
use rowd.Ignore.Wildcard.Exact.{wildcard-decides_Glob}
use rowd.Ignore.Wildcard.Termination.{wildcard-returns}
use rowd.Ignore.Wildcard.Stars.{wildcard-misses_star}

accepted : validate_path (codes "docs/a b.txt") ≡ ok tt
unfolding validate_path
accepted = refl

climbing : validate_path (codes "docs/../../x") ≡ err unsafe_path
unfolding validate_path
climbing = refl

own_folder : validate_path (codes ".Rowd/state") ≡ err reserved_path
unfolding validate_path
own_folder = refl

device : validate_path (codes "com1.txt") ≡ err reserved_filename
unfolding validate_path
device = refl

walk-validate_path_example :
    walk [] (split slash (codes "docs/a b.txt"))
    ≡ some (reverse (split slash (codes "docs/a b.txt")))
walk-validate_path_example = walk-validate_path (codes "docs/a b.txt") accepted

abbrev small : Entry
small = record { hash = codes "1"; size = 3 }

decide-Present_example :
    Present (decide bidirectional none none (some small) none).action (some small) none
decide-Present_example = decide-Present bidirectional none none (some small) none

abbrev rules : List Text
rules = codes "build/" ∷ codes "*.tmp" ∷ []

parsed : parse (codes "# made\n\n build/ \r\n*.tmp\n") ≡ rules
unfolding parse text_eq starts_with
parsed = refl

built : matches rules (codes "x/build") true ≡ true
unfolding matches text_eq
built = refl

matches-subtree_example : matches rules (codes "x/build" ++ (slash ∷ codes "out/a.c")) false ≡ true
unfolding text_eq
matches-subtree_example = matches-subtree rules (codes "x/build") (codes "out/a.c") false refl built

wildcard-decides_Glob_example :
    (b : Bool) × (wildcard (codes "a*c") (codes "abc") ≡ some b)
    × ((b ≡ true) ↔ Glob (codes "a*c") (codes "abc"))
wildcard-decides_Glob_example =
    wildcard-decides_Glob (codes "a*c") (codes "abc")
      (omega arith, (omega arith, (omega arith, tt)))

wildcard-returns_example : (b : Bool) × (wildcard (codes "a*b*c") (codes "aabxbcc") ≡ some b)
wildcard-returns_example = wildcard-returns (codes "a*b*c") (codes "aabxbcc")

wildcard-misses_star_example :
    (wildcard (codes "*") (codes "*x") ≡ some false) × Glob (codes "*") (codes "*x")
wildcard-misses_star_example = wildcard-misses_star b'x' []
