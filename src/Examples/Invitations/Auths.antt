-- ===== src/Examples/Invitations/Auths.antt =====
-- Connections of crates/rowd-core/src/protocol.rs, with a sum in place of HMAC.
use rowd.Base.{ℕ, ◌+◌, ◌%◌, Text, List, [], ◌∷◌, ok, err, ◌≡◌, ◌⊎◌, refl, text_eq, if◌then◌else◌}
use rowd.Paths.{validate_hash, is_hex, utf8_width}
use rowd.Wire.{proof}
use rowd.Auth.{authentication_failed, connection_closed, auth_mac, handshake, server_check}
use rowd.Auth.Handshake.{handshake-decides}
use rowd.Auth.Binding.{Collision, server_check-bound}
use rowd.Examples.Rounds.{hash}
use rowd.Examples.Invitations.{codecs, laws}

abbrev sum : List ℕ → ℕ
sum [] = 0
sum (b ∷ bs) = b + sum bs

abbrev hmac : List ℕ → List ℕ → List ℕ
hmac key input = (sum key + sum input) % 256 ∷ []

abbrev pair_id : Text
pair_id = hash b'a'

abbrev device_id : Text
device_id = hash b'b'

abbrev nonce : Text
nonce = hash b'5'

-- The PC has one secret, a phone that pairs with another PC a second one.
abbrev mac_of : Text → List ℕ
mac_of secret = elim (auth_mac codecs hmac secret nonce pair_id device_id) [ ok m ↦ m | err e ↦ [] ]

computed : auth_mac codecs hmac (hash b'1') nonce pair_id device_id ≡ ok (mac_of (hash b'1'))
unfolding auth_mac validate_hash is_hex utf8_width
computed = refl

computed_elsewhere :
    auth_mac codecs hmac (hash b'2') nonce pair_id device_id ≡ ok (mac_of (hash b'2'))
unfolding auth_mac validate_hash is_hex utf8_width
computed_elsewhere = refl

handshake-decides_example :
    handshake codecs hmac pair_id (hash b'1') (hash b'2') device_id nonce ≡ (
      if text_eq (mac_of (hash b'1')) (mac_of (hash b'2'))
      then ok (ok device_id, ok tt)
      else ok (err authentication_failed, err connection_closed))
unfolding auth_mac validate_hash is_hex utf8_width
handshake-decides_example =
    handshake-decides codecs hmac pair_id (hash b'1') (hash b'2') device_id nonce
      (mac_of (hash b'1')) (mac_of (hash b'2')) computed computed_elsewhere refl

abbrev mac : Text
mac = codecs.hex_encode (mac_of (hash b'1'))

accepted : server_check codecs hmac pair_id (hash b'1') nonce device_id (proof mac) ≡ ok device_id
unfolding server_check validate_hash is_hex utf8_width text_eq
accepted = refl

server_check-bound_example :
    ((nonce ≡ nonce) × (pair_id ≡ pair_id) × (device_id ≡ device_id)) ⊎ Collision hmac
server_check-bound_example =
    server_check-bound codecs hmac (hash b'1') mac nonce pair_id device_id nonce pair_id device_id
      device_id device_id laws accepted accepted
