-- ===== src/Ignore.antt =====
-- crates/rowd-core/src/ignore.rs: the rules of `.rowdignore`.
pub mod Wildcard
pub mod Lines
pub mod Folder
pub mod Subtree
use rowd.Base.{
  ℕ, suc, zero, ◌+◌, ◌-◌, ◌*◌, Text, codes, Option, none, some, Bool, true, false, not, ◌&&◌, ◌||◌,
  ◌==◌, leb, List, [], ◌∷◌, ◌++◌, length, take, any, if◌then◌else◌, text_eq, Result, ok, err,
  ensure, ◌>>◌,
}
use rowd.Paths.{split, slash, utf8_len, is_control}
use rowd.Model.Conflicts.{starts_with}
use Wildcard.Loop.{wildcard}
use Lines.{lines, trim, trim_start_matches, trim_end_matches, ends_with, as_bytes}

-- The line of the rule that is refused, from 1.
pub data IgnoreError : Type 0 where
  too_large : IgnoreError
  unsupported_rule : ℕ → IgnoreError

contains : ℕ → Text → Bool
contains d s = any (λ c. c == d) s

is_rule : Text → Bool
is_rule rule = not (text_eq rule []) && not (starts_with rule (codes "#"))

pub validate_rules : ℕ → List Text → Result IgnoreError (Unit {0})
unfolding contains is_rule trim split is_control
validate_rules index [] = ok tt
validate_rules index (raw ∷ rest) =
    let rule = trim raw in
    let next = validate_rules (suc index) rest in
    if not (is_rule rule)
    then next
    else (ensure
          (not (starts_with rule (codes "!"))
            && not (starts_with rule (codes "/"))
            && not (contains b'\\' rule)
            && not (any (λ part. text_eq part (codes "..")) (split slash rule))
            && not (any is_control rule))
          (unsupported_rule (index + 1))
        >> next)

unfoldable pub validate : Text → Result IgnoreError (Unit {0})
unfolding validate_rules lines utf8_len
validate text = ensure (leb (utf8_len text) (64 * 1024)) too_large >> validate_rules 0 (lines text)

-- `filter`
unfoldable pub keep : (Text → Bool) → List Text → List Text
keep p [] = []
keep p (t ∷ ts) = let rest = keep p ts in if p t then t ∷ rest else rest

trim_all : List Text → List Text
unfolding trim
trim_all [] = []
trim_all (l ∷ ls) = trim l ∷ trim_all ls

unfoldable pub parse : Text → List Text
unfolding keep is_rule trim_all lines
parse text = keep is_rule (trim_all (lines text))

-- `join("/")`
unfoldable pub join : List Text → Text
join [] = []
join (p ∷ []) = p
join (p ∷ q ∷ ps) = p ++ (slash ∷ join (q ∷ ps))

-- `parts[i]`, within the length
unfoldable pub part_at : List Text → ℕ → Text
part_at [] i = []
part_at (p ∷ ps) zero = p
part_at (p ∷ ps) (suc i) = part_at ps i

-- `wildcard` returns: the fuel is enough.
unfoldable pub is_match : Option Bool → Bool
is_match none = false
is_match (some b) = b

-- `(1..=n).any(..)`
unfoldable pub any_upto : ℕ → (ℕ → Bool) → Bool
any_upto zero f = false
any_upto (suc n) f = any_upto n f || f (suc n)

-- The closure of `any`, for the first `n` parts of the path.
unfoldable pub prefix_matches : Text → Bool → List Text → ℕ → Bool
unfolding contains ends_with trim_start_matches trim_end_matches join part_at is_match wildcard
    as_bytes
prefix_matches rule directory parts n =
    let dir_only = ends_with rule slash in
    let pattern = trim_start_matches slash (trim_end_matches slash rule) in
    let candidate = if contains slash pattern then join (take n parts) else part_at parts (n - 1) in
    if dir_only && (n == length parts) && not directory
    then false
    else is_match (wildcard (as_bytes pattern) (as_bytes candidate))

unfoldable pub rule_matches : Text → Bool → Text → Bool
unfolding any_upto prefix_matches split
rule_matches path directory rule =
    let parts = split slash path in any_upto (length parts) (prefix_matches rule directory parts)

unfoldable pub in_conflict_folder : Text → Bool
unfolding starts_with
in_conflict_folder path =
    text_eq path (codes "Rowd Conflicts") || starts_with path (codes "Rowd Conflicts/")

unfoldable pub is_private : Text → Bool
unfolding split
is_private path =
    any (λ part. text_eq part (codes ".rowd")) (split slash path)
    || text_eq path (codes ".rowdignore")

unfoldable pub matches : List Text → Text → Bool → Bool
unfolding rule_matches in_conflict_folder is_private
matches rules path directory =
    if in_conflict_folder path
    then false
    else if is_private path
    then true
    else any (rule_matches path directory) rules
