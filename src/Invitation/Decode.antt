-- ===== src/Invitation/Decode.antt =====
-- `Invitation::decode` of crates/rowd-core/src/model.rs.
use rowd.Base.{
  ℕ, Text, Option, none, some, ◌==◌, leb, List, [], ◌∷◌, Result, ok, err, ensure, or_err,
}
use rowd.Base.Readers.{Reader, read_exact, lift, pure, ◌>>=◌, ◌>>◌}
use rowd.Wire.{from_be_bytes}
use rowd.Invitation.{
  Invitation, InviteError, bad_base64, unexpected_eof, unsupported_payload, invalid_address_length,
  trailing_data, bad_utf8, bad_json, certificate_too_large, LegacyInvitation, Codecs,
  from_be_bytes_16, first_byte, strip_prefix, scheme, validate, from_legacy,
}

abbrev pub at_end : Reader InviteError (Unit {0})
at_end [] = ok (tt, [])
at_end (c ∷ s) = err trailing_data

abbrev pub outcome {ℓ} : {A : Type ℓ} → Result InviteError (A × List ℕ) → Result InviteError A
outcome (ok (a, s)) = ok a
outcome (err e) = err e

module _ (by : Codecs) where
  unfoldable pub read_invitation : Reader InviteError Invitation
  unfolding from_be_bytes from_be_bytes_16
  read_invitation = do
    marker ← read_exact unexpected_eof 1
    lift (ensure (first_byte marker == 2) unsupported_payload)
    version ← read_exact unexpected_eof 4
    address_len ← read_exact unexpected_eof 2
    lift (ensure (leb (from_be_bytes_16 address_len) 2048) invalid_address_length)
    address ← read_exact unexpected_eof (from_be_bytes_16 address_len)
    pair_id ← read_exact unexpected_eof 32
    secret ← read_exact unexpected_eof 32
    certificate_len ← read_exact unexpected_eof 2
    lift (ensure (leb (from_be_bytes_16 certificate_len) 8192) certificate_too_large)
    certificate ← read_exact unexpected_eof (from_be_bytes_16 certificate_len)
    at_end
    address_text ← lift (or_err (by.from_utf8 address) bad_utf8)
    let invite : Invitation = record {
      version = from_be_bytes version;
      address = address_text;
      pair_id = by.hex_encode pair_id;
      cert_der = by.hex_encode certificate;
      secret = by.hex_encode secret;
    }
    lift (validate by invite)
    pure invite

  abbrev pub decode_base64 : Option (List ℕ) → Result InviteError Invitation
  decode_base64 none = err bad_base64
  decode_base64 (some bytes) = outcome (read_invitation bytes)

  abbrev pub decode_json : Option LegacyInvitation → Result InviteError Invitation
  decode_json none = err bad_json
  decode_json (some old) = from_legacy by old

  abbrev pub decode_text : Text → Option Text → Result InviteError Invitation
  decode_text text none = decode_json (by.from_json text)
  decode_text text (some encoded) = decode_base64 (by.base64_decode encoded)

  unfoldable pub decode : Text → Result InviteError Invitation
  unfolding read_invitation from_legacy strip_prefix
  decode text = decode_text (by.trim text) (strip_prefix scheme (by.trim text))
