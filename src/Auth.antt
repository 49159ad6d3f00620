-- ===== src/Auth.antt =====
-- The authentication of a connection: `auth_mac`, `server_auth` and `client_auth` of crates/rowd-core/src/protocol.rs, message
-- by message. HMAC-SHA256 is a parameter.
pub mod Handshake
pub mod Binding
use rowd.Base.{
  ℕ, Text, codes, Option, none, some, Bool, true, false, ◌==◌, List, [], ◌∷◌, ◌++◌, length, text_eq,
  Result, ok, err, ensure, or_err, ◌>>=◌, ◌>>◌,
}
use rowd.Paths.{PathError, validate_hash}
use rowd.Invitation.{Codecs}
use rowd.Wire.{Message, hello, challenge, proof, ready, error_message, protocol_version}

pub data AuthError : Type 0 where
  bad_hex invalid_secret expected_hello incompatible wrong_pair expected_proof
        authentication_failed :
      AuthError
  expected_challenge authentication_rejected connection_closed : AuthError
  bad_hash : PathError → AuthError

abbrev pub on_hash : Result PathError (Unit {0}) → Result AuthError (Unit {0})
on_hash (ok u) = ok tt
on_hash (err e) = err (bad_hash e)

abbrev pub domain : List ℕ
domain = codes "rowd-auth-v2" ++ 0 ∷ []

module _ (by : Codecs) (hmac : List ℕ → List ℕ → List ℕ) where
  -- One identity of the input of the MAC.
  unfoldable pub identity : Text → Result AuthError (List ℕ)
  identity value = on_hash (validate_hash value) >> or_err (by.hex_decode value) bad_hex

  unfoldable pub auth_input : Text → Text → Text → Result AuthError (List ℕ)
  unfolding identity
  auth_input nonce pair_id device_id = do
    nonce_bytes ← identity nonce
    pair_bytes ← identity pair_id
    device_bytes ← identity device_id
    ok (domain ++ (nonce_bytes ++ (pair_bytes ++ device_bytes)))

  unfoldable pub auth_mac : Text → Text → Text → Text → Result AuthError (List ℕ)
  unfolding auth_input
  auth_mac secret nonce pair_id device_id = do
    key ← or_err (by.hex_decode secret) bad_hex
    ensure (length key == 32) invalid_secret
    input ← auth_input nonce pair_id device_id
    ok (hmac key input)

  -- What the PC makes of the first message: the phone's name, or what it answers.
  unfoldable pub server_begin : Text → Message → Result AuthError Text
  server_begin pair_id (hello version peer device_id) = do
    ensure (version == protocol_version) incompatible
    ensure (text_eq peer pair_id) wrong_pair
    ok device_id
  server_begin pair_id _ = err expected_hello

  unfoldable pub server_check : Text → Text → Text → Text → Message → Result AuthError Text
  unfolding auth_mac
  server_check pair_id secret nonce device_id (proof mac) = do
    expected ← auth_mac secret nonce pair_id device_id
    given ← or_err (by.hex_decode mac) bad_hex
    ensure (text_eq expected given) authentication_failed
    ok device_id
  server_check pair_id secret nonce device_id _ = err expected_proof

  unfoldable pub client_hello : Text → Text → Message
  client_hello pair_id device_id = hello protocol_version pair_id device_id

  unfoldable pub client_answer : Text → Text → Text → Message → Result AuthError Message
  unfolding auth_mac
  client_answer pair_id secret device_id (challenge nonce) = do
    mac ← auth_mac secret nonce pair_id device_id
    ok (proof (by.hex_encode mac))
  client_answer pair_id secret device_id _ = err expected_challenge

  unfoldable pub client_end : Option Message → Result AuthError (Unit {0})
  client_end none = err connection_closed
  client_end (some ready) = ok tt
  client_end (some _) = err authentication_rejected

  -- `Ready` follows where the proof was accepted; otherwise the PC closes the connection.
  abbrev pub reply : Result AuthError Text → Option Message
  reply (ok device) = some ready
  reply (err e) = none

  abbrev pub replied :
      Result AuthError Text → Result AuthError (Result AuthError Text × Result AuthError (Unit {0}))
  replied r = ok (r, client_end (reply r))

  -- Both sides of one connection, from the PC's secret and the phone's, and what each returns.
  unfoldable pub server_auth : Text → Text → Text → Message → Message → Result AuthError Text
  unfolding server_begin server_check
  server_auth pair_id secret nonce first second =
      server_begin pair_id first >>= λ device_id. server_check pair_id secret nonce device_id second

  unfoldable pub handshake :
      Text
      → Text
      → Text
      → Text
      → Text
      → Result AuthError (Result AuthError Text × Result AuthError (Unit {0}))
  unfolding server_auth client_hello client_answer client_end
  handshake pair_id server_secret client_secret device_id nonce = do
    answer ← client_answer pair_id client_secret device_id (challenge nonce)
    replied (server_auth pair_id server_secret nonce (client_hello pair_id device_id) answer)
