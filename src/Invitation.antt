-- ===== src/Invitation.antt =====
-- The text that pairs a phone: `Invitation` of crates/rowd-core/src/model.rs. Hexadecimal, base64, UTF-8, `trim` and JSON
-- are the crates' and the standard library's.
pub mod Decode
pub mod RoundTrip
use rowd.Base.{
  ℕ, ◌%◌, ◌/◌, ◌^◌, ◌+◌, ◌*◌, Text, codes, Option, none, some, Bool, true, false, not, ◌&&◌, ◌==◌,
  leb, List, [], ◌∷◌, ◌++◌, length, Result, ok, err, ensure, or_err, ◌>>=◌, ◌>>◌, if◌then◌else◌,
}
use rowd.Paths.{PathError, validate_hash}
use rowd.Wire.{be_bytes}

abbrev pub invitation_version : ℕ
invitation_version = 2

abbrev legacy_version : ℕ
legacy_version = 1

pub record Invitation : Type 0 where
  pub version : ℕ
  pub address : Text
  pub pair_id : Text
  pub cert_der : Text
  pub secret : Text

pub record LegacyInvitation : Type 0 where
  pub version : ℕ
  pub address : Text
  pub pair_id : Text
  pub folder_id : Text
  pub cert_der : Text
  pub secret : Text

pub data InviteError : Type 0 where
  unsupported_version invalid_address certificate_too_large bad_hex empty_certificate
        payload_too_large :
      InviteError
  bad_base64 unexpected_eof unsupported_payload invalid_address_length trailing_data bad_utf8
        bad_json unsupported_legacy :
      InviteError
  bad_hash : PathError → InviteError

pub record Codecs : Type 0 where
  pub hex_encode : List ℕ → Text
  pub hex_decode : Text → Option (List ℕ)
  pub base64_encode : List ℕ → Text
  pub base64_decode : Text → Option (List ℕ)
  pub as_bytes : Text → List ℕ
  pub from_utf8 : List ℕ → Option Text
  pub trim : Text → Text
  pub from_json : Text → Option LegacyInvitation

abbrev pub on_hash : Result PathError (Unit {0}) → Result InviteError (Unit {0})
on_hash (ok u) = ok tt
on_hash (err e) = err (bad_hash e)

-- `u16::to_be_bytes` and `from_be_bytes`
unfoldable pub be_bytes_16 : ℕ → List ℕ
be_bytes_16 n = n / 2 ^ 8 % 256 ∷ n % 256 ∷ []

unfoldable pub from_be_bytes_16 : List ℕ → ℕ
from_be_bytes_16 (a ∷ b ∷ []) = a * 256 + b
from_be_bytes_16 _ = 0

abbrev pub first_byte : List ℕ → ℕ
first_byte [] = 0
first_byte (a ∷ s) = a

-- `strip_prefix`
unfoldable pub strip_prefix : Text → Text → Option Text
strip_prefix [] t = some t
strip_prefix (c ∷ p) [] = none
strip_prefix (c ∷ p) (d ∷ t) = let rest = strip_prefix p t in if c == d then rest else none

abbrev pub scheme : Text
scheme = codes "rowd1:"

unfoldable pub payload : ℕ → List ℕ → List ℕ → List ℕ → List ℕ → List ℕ
unfolding be_bytes_16
payload version address pair_id secret certificate =
    2 ∷ be_bytes version
    ++ (be_bytes_16 (length address % 2 ^ 16)
        ++ (address
            ++ (pair_id ++ (secret ++ (be_bytes_16 (length certificate % 2 ^ 16) ++ certificate)))))

module _ (by : Codecs) where
  unfoldable pub validate : Invitation → Result InviteError (Unit {0})
  validate invite = do
    ensure (invite.version == invitation_version) unsupported_version
    on_hash (validate_hash invite.pair_id)
    on_hash (validate_hash invite.secret)
    ensure
        (not (length (by.as_bytes invite.address) == 0)
          && leb (length (by.as_bytes invite.address)) 2048)
        invalid_address
    ensure (leb (length (by.as_bytes invite.cert_der)) 16384) certificate_too_large
    certificate ← or_err (by.hex_decode invite.cert_der) bad_hex
    ensure (not (length certificate == 0)) empty_certificate

  unfoldable pub encode : Invitation → Result InviteError Text
  unfolding validate payload
  encode invite = do
    validate invite
    let address = by.as_bytes invite.address
    certificate ← or_err (by.hex_decode invite.cert_der) bad_hex
    ensure (leb (length address) 65535 && leb (length certificate) 65535) payload_too_large
    pair_id ← or_err (by.hex_decode invite.pair_id) bad_hex
    secret ← or_err (by.hex_decode invite.secret) bad_hex
    ok (scheme ++ by.base64_encode (payload invite.version address pair_id secret certificate))

  -- Installations of an old version stored JSON.
  unfoldable pub from_legacy : LegacyInvitation → Result InviteError Invitation
  unfolding validate
  from_legacy old = do
    ensure (old.version == legacy_version) unsupported_legacy
    on_hash (validate_hash old.folder_id)
    let invite : Invitation = record {
      version = invitation_version;
      address = old.address;
      pair_id = old.pair_id;
      cert_der = old.cert_der;
      secret = old.secret;
    }
    validate invite
    ok invite
