-- ===== src/Auth/Handshake.antt =====
-- Both sides of the authentication in crates/rowd-core/src/protocol.rs.
use rowd.Base.{
  ℕ, Text, some, Bool, true, false, List, text_eq, text_eq_refl, ok, err, ensure, or_err, ◌>>=◌,
  ◌>>◌, ◌≡◌, refl, ap, ◌∙◌, if◌then◌else◌,
}
use rowd.Wire.{proof, challenge}
use rowd.Invitation.{Codecs}
use rowd.Auth.{
  bad_hex, authentication_failed, connection_closed, auth_mac, server_begin, server_check,
  client_hello, client_answer, client_end, replied, server_auth, handshake,
}

module _ (by : Codecs) (hmac : List ℕ → List ℕ → List ℕ) (pair_id device_id nonce : Text) where
  client_answer-is :
      (secret : Text) (given : List ℕ)
      → auth_mac by hmac secret nonce pair_id device_id ≡ ok given
      → client_answer by hmac pair_id secret device_id (challenge nonce)
        ≡ ok (proof (by.hex_encode given))
  unfolding client_answer
  client_answer-is secret given e = ap (λ r. r >>= λ mac. ok (proof (by.hex_encode mac))) e

  server_check-is :
      (secret : Text) (expected given : List ℕ)
      → auth_mac by hmac secret nonce pair_id device_id ≡ ok expected
      → by.hex_decode (by.hex_encode given) ≡ some given
      → server_check by hmac pair_id secret nonce device_id (proof (by.hex_encode given))
        ≡ (ensure (text_eq expected given) authentication_failed >> ok device_id)
  unfolding server_check
  server_check-is secret expected given e read =
      ap
        (λ r. r >>= λ mac. or_err (by.hex_decode (by.hex_encode given)) bad_hex >>= λ g.
          ensure (text_eq mac g) authentication_failed >> ok device_id)
        e
      ∙ ap
          (λ o. or_err o bad_hex >>= λ g.
            ensure (text_eq expected g) authentication_failed >> ok device_id)
          read

  server_begin-client_hello :
      server_begin by hmac pair_id (client_hello by hmac pair_id device_id) ≡ ok device_id
  unfolding server_begin client_hello
  server_begin-client_hello = rw (text_eq_refl pair_id) refl

  decided :
      (b : Bool)
      → replied by hmac (ensure b authentication_failed >> ok device_id) ≡ (
          if b
          then ok (ok device_id, ok tt)
          else ok (err authentication_failed, err connection_closed))
  unfolding client_end
  decided true = refl
  decided false = refl

-- Where the PC and the phone can compute their MACs and the phone's is read back from its digits, the PC accepts the phone
-- under its name and answers it exactly when the two MACs are equal; otherwise the authentication has failed.
pub handshake-decides :
    (by : Codecs) (hmac : List ℕ → List ℕ → List ℕ)
    (pair_id server_secret client_secret device_id nonce : Text) (expected given : List ℕ)
    → auth_mac by hmac server_secret nonce pair_id device_id ≡ ok expected
    → auth_mac by hmac client_secret nonce pair_id device_id ≡ ok given
    → by.hex_decode (by.hex_encode given) ≡ some given
    → handshake by hmac pair_id server_secret client_secret device_id nonce ≡ (
        if text_eq expected given
        then ok (ok device_id, ok tt)
        else ok (err authentication_failed, err connection_closed))
unfolding handshake server_auth
handshake-decides by hmac pair_id server_secret client_secret device_id nonce expected given
      is_expected is_given read =
    ap
      (λ r. r >>= λ answer. replied by hmac (
        server_auth by hmac pair_id server_secret nonce (client_hello by hmac pair_id device_id)
          answer))
      (client_answer-is by hmac pair_id device_id nonce client_secret given is_given)
    ∙ ap
        (λ r. replied by hmac (
          r >>= λ device.
          server_check by hmac pair_id server_secret nonce device (proof (by.hex_encode given))))
        (server_begin-client_hello by hmac pair_id device_id nonce)
    ∙ ap (replied by hmac) (
        server_check-is by hmac pair_id device_id nonce server_secret expected given is_expected
          read)
    ∙ decided by hmac pair_id device_id nonce (text_eq expected given)
