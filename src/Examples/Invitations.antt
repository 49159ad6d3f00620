-- ===== src/Examples/Invitations.antt =====
-- An invitation of crates/rowd-core/src/model.rs, with codecs in place of the crates'.
pub mod Auths
pub mod Pairings
use rowd.Base.{
  ℕ, zero, suc, ◌+◌, ◌-◌, ◌*◌, ◌/◌, ◌%◌, Text, codes, Option, none, some, Bool, true, false, ◌&&◌,
  ◌||◌, &&-split, leb, ltb, List, [], ◌∷◌, ◌++◌, length, all, map, ok, err, Result, ◌<◌, ◌≤◌,
  if◌then◌else◌, if-split, inl, inr, ◌≡◌, ◌≢◌, refl, ap, sym, ◌∙◌, arith, Option-cases,
}
use rowd.Paths.{is_hex, is_digit, utf8_len, utf8_width, validate_hash}
use rowd.Invitation.{Invitation, InviteError, Codecs, encode, scheme}
use rowd.Invitation.Decode.{decode}
use rowd.Invitation.RoundTrip.{Laws, decode-encode}
use rowd.Examples.Rounds.{hash}

abbrev digit : ℕ → ℕ
digit n = if ltb n 10 then 48 + n else 87 + n

abbrev value : ℕ → ℕ
value c = if leb c b'9' then c - 48 else if leb b'a' c then c - 87 else c - 55

abbrev is_any_hex : ℕ → Bool
is_any_hex c = is_hex c || (leb b'A' c && leb c b'F')

abbrev hex_encode : List ℕ → Text
hex_encode [] = []
hex_encode (b ∷ bs) = digit (b / 16) ∷ digit (b % 16) ∷ hex_encode bs

abbrev add_byte : ℕ → Option (List ℕ) → Option (List ℕ)
add_byte b none = none
add_byte b (some bs) = some (b ∷ bs)

abbrev hex_decode : Text → Option (List ℕ)
hex_decode [] = some []
hex_decode (c ∷ []) = none
hex_decode (c ∷ d ∷ s) =
    let rest = hex_decode s in
    if is_any_hex c && is_any_hex d then add_byte (value c * 16 + value d) rest else none

add_byte-ok :
    (b : ℕ) (o : Option (List ℕ)) (bs : List ℕ)
    → add_byte b o ≡ some bs
    → (cs : List ℕ) × (o ≡ some cs) × (bs ≡ b ∷ cs)
add_byte-ok b none bs h = cc
add_byte-ok b (some cs) bs h = (cs, refl, ap (λ o. elim o [ none ↦ bs | some x ↦ x ]) (sym h))

one_byte : (c : ℕ) → is_any_hex c ≡ true → utf8_width c ≡ 1
unfolding is_hex is_digit utf8_width
one_byte c h = ground (arith, h)

two_digits : (s : Text) (bs : List ℕ) → hex_decode s ≡ some bs → utf8_len s ≡ 2 * length bs
unfolding utf8_len
two_digits [] [] h = refl
two_digits [] (b ∷ bs) h = cc
two_digits (c ∷ []) bs h = cc
two_digits (c ∷ d ∷ s) bs h = elim (if-split (is_any_hex c && is_any_hex d) _ _ h) [
  | inl (hex, e) ↦
      let (cs, rest, whole) = add_byte-ok _ (hex_decode s) bs e in
      let (left, right) = &&-split (is_any_hex c) (is_any_hex d) hex in
      omega (arith, one_byte c left, one_byte d right, two_digits s cs rest, ap length whole)
  | inr (_, e) ↦ cc
]

digit-value : (c : ℕ) → is_hex c ≡ true → (digit (value c) ≡ c) × (value c < 16)
unfolding is_hex is_digit
digit-value c h = (ground (arith, h), ground (arith, h))

high : (v w : ℕ) → w < 16 → (v * 16 + w) / 16 ≡ v
high v w h = omega (arith, h)

low : (v w : ℕ) → w < 16 → (v * 16 + w) % 16 ≡ w
low v w h = omega (arith, h)

lower_case :
    (s : Text) (bs : List ℕ) → hex_decode s ≡ some bs → all is_hex s ≡ true → hex_encode bs ≡ s
lower_case [] [] h k = refl
lower_case [] (b ∷ bs) h k = cc
lower_case (c ∷ []) bs h k = cc
lower_case (c ∷ d ∷ s) bs h k = elim (if-split (is_any_hex c && is_any_hex d) _ _ h) [
  | inl (hex, e) ↦
      let (cs, rest, whole) = add_byte-ok _ (hex_decode s) bs e in
      let (first, others) = &&-split (is_hex c) (all is_hex (d ∷ s)) k in
      let (second, last) = &&-split (is_hex d) (all is_hex s) others in
      let (c_back, _) = digit-value c first in
      let (d_back, small) = digit-value d second in
      ap hex_encode whole
      ∙ rw
          (
            high (value c) (value d) small,
            low (value c) (value d) small,
            c_back,
            d_back,
            lower_case s cs rest last,
          )
          refl
  | inr (_, e) ↦ cc
]

-- A code point and, after it, as many marks as it has further bytes.
abbrev marks : ℕ → List ℕ → List ℕ
marks zero s = s
marks (suc n) s = 0 ∷ marks n s

abbrev as_bytes : Text → List ℕ
as_bytes [] = []
as_bytes (c ∷ t) = suc c ∷ marks (utf8_width c - 1) (as_bytes t)

abbrev prepended : ℕ → Option Text → Option Text
prepended c none = none
prepended c (some t) = some (c ∷ t)

abbrev from_utf8 : List ℕ → Option Text
from_utf8 [] = some []
from_utf8 (zero ∷ s) = from_utf8 s
from_utf8 (suc c ∷ s) = prepended c (from_utf8 s)

from_utf8-marks : (n : ℕ) (s : List ℕ) → from_utf8 (marks n s) ≡ from_utf8 s
from_utf8-marks zero s = refl
from_utf8-marks (suc n) s = from_utf8-marks n s

from_utf8-as_bytes : (t : Text) → from_utf8 (as_bytes t) ≡ some t
from_utf8-as_bytes [] = refl
from_utf8-as_bytes (c ∷ t) =
    rw (from_utf8-marks (utf8_width c - 1) (as_bytes t), from_utf8-as_bytes t) refl

length-marks : (n : ℕ) (s : List ℕ) → length (marks n s) ≡ n + length s
length-marks zero s = omega arith
length-marks (suc n) s = omega (arith, length-marks n s)

some_width : (c : ℕ) → 1 ≤ utf8_width c
unfolding utf8_width
some_width c = ground arith

length-as_bytes : (t : Text) → length (as_bytes t) ≡ utf8_len t
unfolding utf8_len
length-as_bytes [] = refl
length-as_bytes (c ∷ t) =
    omega (arith, length-marks (utf8_width c - 1) (as_bytes t), length-as_bytes t, some_width c)

abbrev codecs : Codecs
codecs = record {
  hex_encode = hex_encode;
  hex_decode = hex_decode;
  base64_encode = λ bs. bs;
  base64_decode = some;
  as_bytes = as_bytes;
  from_utf8 = from_utf8;
  trim = λ t. t;
  from_json = λ t. none;
}

laws : Laws codecs
laws = record {
  two_digits = two_digits;
  lower_case = lower_case;
  base64 = λ bs. refl;
  utf8 = from_utf8-as_bytes;
  length_of = length-as_bytes;
  trimmed = λ bs. refl;
}

abbrev invite : Invitation
invite = record {
  version = 2;
  address = codes "192.168.0.7:4040";
  pair_id = hash b'3';
  cert_der = codes "30820a";
  secret = hash b'c';
}

abbrev text_of : Result InviteError Text → Text
text_of (ok t) = t
text_of (err e) = []

encoding : encode codecs invite ≡ ok (text_of (encode codecs invite))
unfolding encode validate_hash is_hex utf8_width
encoding = refl

decode-encode_example : decode codecs (text_of (encode codecs invite)) ≡ ok invite
unfolding is_hex
decode-encode_example =
    decode-encode codecs invite (text_of (encode codecs invite)) laws refl encoding
