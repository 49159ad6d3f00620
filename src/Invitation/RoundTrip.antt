-- ===== src/Invitation/RoundTrip.antt =====
-- An `Invitation` of crates/rowd-core/src/model.rs as a text and back.
use rowd.Base.{
  or_err-ok, ℕ, ◌%◌, ◌^◌, ◌*◌, ◌≤◌, Text, some, true, not, ◌&&◌, ◌==◌, leb, List, [], ◌∷◌, ◌++◌,
  length, all, append-nil, Result, ok, err, or_err, ensure-bind, ensure-true, >>=-eq-ok, ◌≡◌, refl,
  sym, ap, ◌∙◌, arith,
}
use rowd.Base.Readers
use rowd.Base.Readers.{Reader, read_exact, lift, pure, read_exact-length, step, step-lift}
use rowd.Paths.{validate_hash, is_hex, utf8_len}
use rowd.Wire.{be_bytes, from_be_bytes}
use rowd.Invitation.{
  Invitation, InviteError, Codecs, on_hash, invitation_version, unsupported_version,
  invalid_address, certificate_too_large, invalid_address_length, be_bytes_16, from_be_bytes_16,
  strip_prefix, scheme, validate, payload, encode, bad_hex, payload_too_large, unexpected_eof,
  bad_utf8,
}
use rowd.Invitation.Decode.{read_invitation, decode, decode_text, decode_base64, at_end, outcome}

-- What the crates promise: two digits for a byte, lower case, and the inverse of each encoding.
pub record Laws (by : Codecs) : Type 0 where
  pub two_digits : (s : Text) (bs : List ℕ) → by.hex_decode s ≡ some bs → utf8_len s ≡ 2 * length bs
  pub lower_case :
      (s : Text) (bs : List ℕ)
      → by.hex_decode s ≡ some bs
      → all is_hex s ≡ true
      → by.hex_encode bs ≡ s
  pub base64 : (bs : List ℕ) → by.base64_decode (by.base64_encode bs) ≡ some bs
  pub utf8 : (t : Text) → by.from_utf8 (by.as_bytes t) ≡ some t
  pub length_of : (t : Text) → length (by.as_bytes t) ≡ utf8_len t
  pub trimmed :
      (bs : List ℕ) → by.trim (scheme ++ by.base64_encode bs) ≡ scheme ++ by.base64_encode bs

strip_prefix-append : (p t : Text) → strip_prefix p (p ++ t) ≡ some t
unfolding strip_prefix
strip_prefix-append [] t = refl
strip_prefix-append (c ∷ p) t = ground (arith, strip_prefix-append p t)

from_be_bytes_16-be_bytes_16 : (n : ℕ) → n ≤ 65535 → from_be_bytes_16 (be_bytes_16 (n % 2 ^ 16)) ≡ n
unfolding from_be_bytes_16 be_bytes_16
from_be_bytes_16-be_bytes_16 n h = omega arith

abbrev text_of : Result InviteError Text → Text
text_of (ok text) = text
text_of (err e) = []

on_hash-Hash :
    (hash : Text) {u : Unit {0}}
    → on_hash (validate_hash hash) ≡ ok u
    → (utf8_len hash ≡ 64) × (all is_hex hash ≡ true)
unfolding validate_hash
on_hash-Hash hash h = ground (arith, h)

whole : (bs : List ℕ) (n : ℕ) → length bs ≡ n → read_exact unexpected_eof n bs ≡ ok (bs, [])
whole bs n e =
    ap (read_exact unexpected_eof n) (sym (append-nil bs))
    ∙ read_exact-length unexpected_eof n bs [] e

module _ (by : Codecs) (laws : Laws by) where
  -- The fields of an invitation that was encoded, as bytes.
  record Encoded (invite : Invitation) (text : Text) : Type 0 where
    certificate : List ℕ
    pair_id : List ℕ
    secret : List ℕ
    valid : validate by invite ≡ ok tt
    is_certificate : by.hex_decode invite.cert_der ≡ some certificate
    is_pair_id : by.hex_decode invite.pair_id ≡ some pair_id
    is_secret : by.hex_decode invite.secret ≡ some secret
    is_text :
        text
        ≡ scheme
          ++ by.base64_encode
              (payload invite.version (by.as_bytes invite.address) pair_id secret certificate)

  encode-Encoded :
      (invite : Invitation) (text : Text) → encode by invite ≡ ok text → Encoded invite text
  unfolding encode
  encode-Encoded invite text h =
      let (_, valid, h1) = >>=-eq-ok (validate by invite) _ h in
      let (certificate, is_certificate, h2) =
        >>=-eq-ok (or_err (by.hex_decode invite.cert_der) bad_hex) _ h1 in
      let (_, h3) =
        ensure-bind
          (leb (length (by.as_bytes invite.address)) 65535 && leb (length certificate) 65535)
          payload_too_large _ h2 in
      let (pair_id, is_pair_id, h4) =
        >>=-eq-ok (or_err (by.hex_decode invite.pair_id) bad_hex) _ h3 in
      let (secret, is_secret, h5) = >>=-eq-ok (or_err (by.hex_decode invite.secret) bad_hex) _ h4 in
      record {
        certificate = certificate;
        pair_id = pair_id;
        secret = secret;
        valid = valid;
        is_certificate = or_err-ok _ bad_hex is_certificate;
        is_pair_id = or_err-ok _ bad_hex is_pair_id;
        is_secret = or_err-ok _ bad_hex is_secret;
        is_text = sym (ap text_of h5);
      }

  -- What `validate` says of the lengths.
  record Sized (invite : Invitation) : Type 0 where
    version : invite.version ≡ invitation_version
    address : length (by.as_bytes invite.address) ≤ 2048
    pair_id : (utf8_len invite.pair_id ≡ 64) × (all is_hex invite.pair_id ≡ true)
    secret : (utf8_len invite.secret ≡ 64) × (all is_hex invite.secret ≡ true)
    certificate : length (by.as_bytes invite.cert_der) ≤ 16384

  validate-Sized : (invite : Invitation) → validate by invite ≡ ok tt → Sized invite
  unfolding validate
  validate-Sized invite h =
      let (is_version, h1) =
        ensure-bind (invite.version == invitation_version) unsupported_version _ h in
      let (_, is_pair, h2) = >>=-eq-ok (on_hash (validate_hash invite.pair_id)) _ h1 in
      let (_, is_secret, h3) = >>=-eq-ok (on_hash (validate_hash invite.secret)) _ h2 in
      let (is_address, h4) =
        ensure-bind
          (not (length (by.as_bytes invite.address) == 0)
            && leb (length (by.as_bytes invite.address)) 2048)
          invalid_address _ h3 in
      let (is_certificate, _) =
        ensure-bind (leb (length (by.as_bytes invite.cert_der)) 16384) certificate_too_large _ h4 in
      record {
        version = ground (arith, is_version);
        address = ground (arith, is_address);
        pair_id = on_hash-Hash invite.pair_id is_pair;
        secret = on_hash-Hash invite.secret is_secret;
        certificate = ground (arith, is_certificate);
      }

  checked :
      (invite built : Invitation)
      → validate by invite ≡ ok tt
      → built ≡ invite
      → (Readers.◌>>=◌ (lift (validate by built)) (λ _. pure built)) [] ≡ ok (invite, [])
  unfolding pure
  checked invite built valid e =
      step-lift (validate by built) _ [] (rw e valid) ∙ ap (λ i. ok (i, [])) e

  read_payload :
      (invite : Invitation) (certificate pair_id secret : List ℕ)
      → validate by invite ≡ ok tt
      → from_be_bytes (be_bytes invite.version) ≡ invite.version
      → by.hex_encode certificate ≡ invite.cert_der
      → by.hex_encode pair_id ≡ invite.pair_id
      → by.hex_encode secret ≡ invite.secret
      → length pair_id ≡ 32
      → length secret ≡ 32
      → length (by.as_bytes invite.address) ≤ 2048
      → length certificate ≤ 8192
      → read_invitation by
          (payload invite.version (by.as_bytes invite.address) pair_id secret certificate)
        ≡ ok (invite, [])
  unfolding read_invitation payload be_bytes be_bytes_16
  read_payload invite certificate pair_id secret valid version c p s p32 s32 short fits =
      let address = by.as_bytes invite.address in
      let address_len : from_be_bytes_16 (be_bytes_16 (length address % 2 ^ 16)) ≡ length address =
        from_be_bytes_16-be_bytes_16 (length address) (omega (arith, short)) in
      let certificate_len : from_be_bytes_16 (be_bytes_16 (length certificate % 2 ^ 16))
          ≡ length certificate =
        from_be_bytes_16-be_bytes_16 (length certificate) (omega (arith, fits)) in
      step _ _ _ (read_exact-length unexpected_eof 1 (2 ∷ []) _ refl)
      ∙ step-lift _ _ _ refl
      ∙ step _ _ _ (read_exact-length unexpected_eof 4 (be_bytes invite.version) _ refl)
      ∙ step _ _ _
          (read_exact-length unexpected_eof 2 (be_bytes_16 (length address % 2 ^ 16)) _ refl)
      ∙ step-lift _ _ _ (
          ensure-true (leb (from_be_bytes_16 (be_bytes_16 (length address % 2 ^ 16))) 2048)
            invalid_address_length (rw address_len (ground (arith, short))))
      ∙ step _ _ _ (
          read_exact-length unexpected_eof _ address
            (pair_id ++ (secret ++ (be_bytes_16 (length certificate % 2 ^ 16) ++ certificate)))
            (sym address_len))
      ∙ step _ _ _ (read_exact-length unexpected_eof 32 pair_id _ p32)
      ∙ step _ _ _ (read_exact-length unexpected_eof 32 secret _ s32)
      ∙ step _ _ _
          (read_exact-length unexpected_eof 2 (be_bytes_16 (length certificate % 2 ^ 16)) _ refl)
      ∙ step-lift _ _ _ (
          ensure-true (leb (from_be_bytes_16 (be_bytes_16 (length certificate % 2 ^ 16))) 8192)
            certificate_too_large (rw certificate_len (ground (arith, fits))))
      ∙ step _ _ _ (whole certificate _ (sym certificate_len))
      ∙ step at_end _ _ refl
      ∙ step-lift _ _ _ (ap (λ o. or_err o bad_utf8) (laws.utf8 invite.address))
      ∙ checked invite _ valid (rw (version, c, p, s) refl)

version_bytes : from_be_bytes (be_bytes invitation_version) ≡ invitation_version
unfolding from_be_bytes be_bytes
version_bytes = refl

decode-scheme :
    (by : Codecs) (text encoded : Text)
    → by.trim text ≡ scheme ++ encoded
    → decode by text ≡ decode_base64 by (by.base64_decode encoded)
unfolding decode
decode-scheme by text encoded e =
    ap (λ t. decode_text by t (strip_prefix scheme t)) e
    ∙ ap (decode_text by (scheme ++ encoded)) (strip_prefix-append scheme encoded)

-- An invitation that is encoded, with its certificate in lower case, is decoded as it was.
pub decode-encode :
    (by : Codecs) (invite : Invitation) (text : Text)
    → Laws by
    → all is_hex invite.cert_der ≡ true
    → encode by invite ≡ ok text
    → decode by text ≡ ok invite
decode-encode by invite text laws low h =
    let e = encode-Encoded by laws invite text h in
    let v = validate-Sized by laws invite e.valid in
    let bytes =
      payload invite.version (by.as_bytes invite.address) e.pair_id e.secret e.certificate in
    let read =
      read_payload by laws invite e.certificate e.pair_id e.secret e.valid
        (rw v.version version_bytes)
        (laws.lower_case invite.cert_der e.certificate e.is_certificate low)
        (laws.lower_case invite.pair_id e.pair_id e.is_pair_id v.pair_id.1)
        (laws.lower_case invite.secret e.secret e.is_secret v.secret.1)
        (omega (arith, laws.two_digits invite.pair_id e.pair_id e.is_pair_id, v.pair_id.0))
        (omega (arith, laws.two_digits invite.secret e.secret e.is_secret, v.secret.0)) v.address
        (omega (
          arith,
          laws.two_digits invite.cert_der e.certificate e.is_certificate,
          laws.length_of invite.cert_der,
          v.certificate,
        )) in
    decode-scheme by text (by.base64_encode bytes) (ap by.trim e.is_text ∙ laws.trimmed bytes)
    ∙ ap (decode_base64 by) (laws.base64 bytes)
    ∙ ap outcome read
