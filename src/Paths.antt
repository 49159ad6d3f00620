-- ===== src/Paths.antt =====
-- `validate_hash` and `validate_path` of crates/rowd-core/src/model.rs, over code points.
pub mod Safety
use rowd.Base.{
  ℕ, zero, suc, ◌+◌, ◌-◌, Text, codes, Bool, true, false, not, ◌&&◌, ◌||◌, ◌==◌, ltb, leb, List, [],
  ◌∷◌, length, all, any, if◌then◌else◌, text_eq, Result, ok, err, ensure, ◌>>◌,
}

pub data PathError : Type 0 where
  path_length unsafe_path unsupported_filename unsafe_filename reserved_filename : PathError
  reserved_path invalid_hash : PathError

abbrev pub slash : ℕ
slash = b'/'

-- `str::len`: the bytes of the UTF-8 encoding
unfoldable pub utf8_width : ℕ → ℕ
utf8_width c = if ltb c 0x80 then 1 else if ltb c 0x800 then 2 else if ltb c 0x10000 then 3 else 4

unfoldable pub utf8_len : Text → ℕ
unfolding utf8_width
utf8_len [] = 0
utf8_len (c ∷ s) = utf8_width c + utf8_len s

-- `str::split` at one character: at least one part, empty ones kept
abbrev pub prepend : ℕ → List Text → List Text
prepend c [] = (c ∷ []) ∷ []
prepend c (p ∷ ps) = (c ∷ p) ∷ ps

unfoldable pub split : ℕ → Text → List Text
split d [] = [] ∷ []
split d (c ∷ s) = let rest = split d s in if c == d then [] ∷ rest else prepend c rest

-- `split(d).next().unwrap()`
pub first_part : ℕ → Text → Text
first_part d [] = []
first_part d (c ∷ s) = let rest = first_part d s in if c == d then [] else c ∷ rest

-- `u8::to_ascii_uppercase`
upper : ℕ → ℕ
upper c = if leb b'a' c && leb c b'z' then c - 32 else c

upper_text : Text → Text
upper_text [] = []
upper_text (c ∷ s) = upper c ∷ upper_text s

unfoldable pub is_digit : ℕ → Bool
is_digit c = leb b'0' c && leb c b'9'

-- `char::is_control`
unfoldable pub is_control : ℕ → Bool
is_control c = ltb c 32 || (leb 127 c && ltb c 160)

is_forbidden : ℕ → Bool
is_forbidden c = any (λ d. c == d) (codes "\\:*?\"<>|")

ends_badly : Text → Bool
ends_badly [] = false
ends_badly (c ∷ []) = c == b'.' || c == b' '
ends_badly (c ∷ d ∷ s) = ends_badly (d ∷ s)

-- The stem is upper case: a device name, or `COM` or `LPT` before one digit.
is_reserved : Text → Bool
is_reserved (a ∷ b ∷ c ∷ []) =
    text_eq (a ∷ b ∷ c ∷ []) (codes "CON")
    || text_eq (a ∷ b ∷ c ∷ []) (codes "PRN")
    || text_eq (a ∷ b ∷ c ∷ []) (codes "AUX")
    || text_eq (a ∷ b ∷ c ∷ []) (codes "NUL")
is_reserved (a ∷ b ∷ c ∷ d ∷ []) =
    (text_eq (a ∷ b ∷ c ∷ []) (codes "COM") || text_eq (a ∷ b ∷ c ∷ []) (codes "LPT")) && is_digit d
is_reserved _ = false

pub validate_part : Text → Result PathError (Unit {0})
unfolding upper_text upper is_digit is_control is_forbidden ends_badly is_reserved first_part
    text_eq
validate_part part = do
  ensure
      (not (text_eq part []) && not (text_eq part (codes ".")) && not (text_eq part (codes "..")))
      unsafe_path
  ensure (leb (utf8_len part) 240 && not (ends_badly part)) unsupported_filename
  ensure (not (any (λ c. is_control c || is_forbidden c) part)) unsafe_filename
  ensure (not (is_reserved (upper_text (first_part b'.' part)))) reserved_filename

pub validate_parts : List Text → Result PathError (Unit {0})
unfolding validate_part
validate_parts [] = ok tt
validate_parts (part ∷ parts) = validate_part part >> validate_parts parts

unfoldable pub validate_path : Text → Result PathError (Unit {0})
unfolding validate_parts split utf8_len
validate_path path = do
  ensure (not (text_eq path []) && leb (utf8_len path) 2048) path_length
  validate_parts (split slash path)
  ensure (not (text_eq (upper_text (first_part slash path)) (codes ".ROWD"))) reserved_path

-- A digit or one of `a` to `f`: an ASCII hexadecimal digit that is not upper case.
unfoldable pub is_hex : ℕ → Bool
unfolding is_digit
is_hex c = is_digit c || (leb b'a' c && leb c b'f')

unfoldable pub validate_hash : Text → Result PathError (Unit {0})
unfolding is_hex is_digit utf8_len
validate_hash hash = ensure (utf8_len hash == 64 && all is_hex hash) invalid_hash
