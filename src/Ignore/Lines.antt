-- ===== src/Ignore/Lines.antt =====
-- The methods of `str` that crates/rowd-core/src/ignore.rs calls, over code points.
use rowd.Base.{
  ℕ, ◌+◌, ◌/◌, ◌%◌, Text, Bool, true, false, ◌&&◌, ◌||◌, ◌==◌, leb, ltb, List, [], ◌∷◌, any,
  if◌then◌else◌,
}
use rowd.Paths.{split}

is_empty : Text → Bool
is_empty [] = true
is_empty (c ∷ s) = false

strip_return : Text → Text
strip_return [] = []
strip_return (c ∷ []) = if c == 0x0D then [] else c ∷ []
strip_return (c ∷ d ∷ s) = c ∷ strip_return (d ∷ s)

-- A line ends with a line feed, or a carriage return and a line feed; the last may end without.
end_lines : List Text → List Text
unfolding is_empty strip_return
end_lines [] = []
end_lines (l ∷ []) = if is_empty l then [] else l ∷ []
end_lines (l ∷ m ∷ ls) = strip_return l ∷ end_lines (m ∷ ls)

unfoldable pub lines : Text → List Text
unfolding end_lines split
lines text = end_lines (split 0x0A text)

-- `char::is_whitespace`
is_whitespace : ℕ → Bool
is_whitespace c =
    (leb 9 c && leb c 13)
    || any (λ d. c == d)
        (0x20 ∷ 0x85 ∷ 0xA0 ∷ 0x1680 ∷ 0x2028 ∷ 0x2029 ∷ 0x202F ∷ 0x205F ∷ 0x3000 ∷ [])
    || (leb 0x2000 c && leb c 0x200A)

drop_while : (ℕ → Bool) → Text → Text
drop_while p [] = []
drop_while p (c ∷ s) = let rest = drop_while p s in if p c then rest else c ∷ s

drop_end : (ℕ → Bool) → Text → Text
unfolding is_empty
drop_end p [] = []
drop_end p (c ∷ s) = let rest = drop_end p s in if is_empty rest && p c then [] else c ∷ rest

unfoldable pub trim : Text → Text
unfolding drop_while drop_end is_whitespace
trim s = drop_end is_whitespace (drop_while is_whitespace s)

unfoldable pub trim_start_matches : ℕ → Text → Text
unfolding drop_while
trim_start_matches d s = drop_while (λ c. c == d) s

unfoldable pub trim_end_matches : ℕ → Text → Text
unfolding drop_end
trim_end_matches d s = drop_end (λ c. c == d) s

unfoldable pub ends_with : Text → ℕ → Bool
ends_with [] d = false
ends_with (c ∷ []) d = c == d
ends_with (c ∷ x ∷ s) d = ends_with (x ∷ s) d

-- The UTF-8 bytes.
unfoldable pub as_bytes : Text → Text
as_bytes [] = []
as_bytes (c ∷ s) =
    let rest = as_bytes s in
    if ltb c 0x80
    then c ∷ rest
    else if ltb c 0x800
    then (0xC0 + c / 64) ∷ (0x80 + c % 64) ∷ rest
    else if ltb c 0x10000
    then (0xE0 + c / 4096) ∷ (0x80 + c / 64 % 64) ∷ (0x80 + c % 64) ∷ rest
    else (0xF0 + c / 262144)
      ∷ (0x80 + c / 4096 % 64)
      ∷ (0x80 + c / 64 % 64)
      ∷ (0x80 + c % 64)
      ∷ rest
