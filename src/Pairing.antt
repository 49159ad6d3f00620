-- ===== src/Pairing.antt =====
-- Pairing over the local network: the packets and the checks of crates/rowd-core/src/pairing.rs. They are public hints; a
-- connection pinned to the certificate delivers the credentials. Hexadecimal and SHA-256 are not of this repository.
pub mod Pinned
use rowd.Base.{
  ℕ, Text, Option, none, some, Bool, true, false, not, ◌&&◌, ◌||◌, ◌==◌, leb, List, [], ◌∷◌, any,
  text_eq, Result, ok, err, ensure, or_err, ◌>>=◌, ◌>>◌,
}
use rowd.Discovery.{SocketAddr, is_ipv4}
use rowd.Invitation
use rowd.Invitation.{Invitation, InviteError, Codecs}
use rowd.Paths.{PathError, validate_hash, utf8_len, is_control}
use rowd.Scan.{is_absent, is_empty}

pub data DeviceType : Type 0 where
  pc android : DeviceType

pub data Packet : Type 0 where
  discover : (nonce : Text) → DeviceType → Packet
  announce :
      (nonce session_id device_name : Text)
      → DeviceType
      → (pair_id fingerprint cert_der : Option Text) (tcp_port : Option ℕ) → Packet
  offer : (session_id device_name pair_id fingerprint cert_der : Text) (tcp_port : ℕ) → Packet

pub record Peer : Type 0 where
  pub session_id : Text
  pub device_name : Text
  pub device_type : DeviceType
  pub pair_id : Option Text
  pub fingerprint : Option Text
  pub cert_der : Option Text
  pub endpoint : SocketAddr

pub data PairError : Type 0 where
  invalid_pc_peer not_an_offer invalid_source invalid_name missing_pair_id missing_fingerprint :
      PairError
  missing_certificate certificate_size bad_hex fingerprint_differs invalid_port : PairError
  android_with_pc_fields not_an_announcement nonce_or_source differs_from_pinned : PairError
  bad_hash : PathError → PairError
  bad_invitation : InviteError → PairError

abbrev pub on_hash : Result PathError (Unit {0}) → Result PairError (Unit {0})
on_hash (ok u) = ok tt
on_hash (err e) = err (bad_hash e)

abbrev pub on_invitation : Result InviteError (Unit {0}) → Result PairError (Unit {0})
on_invitation (ok u) = ok tt
on_invitation (err e) = err (bad_invitation e)

unfoldable pub validate_name : Text → Result PairError (Unit {0})
validate_name name =
    ensure (not (is_empty name) && leb (utf8_len name) 80 && not (any is_control name)) invalid_name

abbrev pub is_pc : DeviceType → Bool
is_pc pc = true
is_pc android = false

abbrev pub is_port : Option ℕ → Bool
is_port none = false
is_port (some port) = not (port == 0)

-- `==` of a text with one that may be missing
abbrev pub is_text : Text → Option Text → Bool
is_text t none = false
is_text t (some u) = text_eq t u

module _ (by : Codecs) (sha256 : List ℕ → List ℕ) where
  unfoldable pub validate_public_pc :
      Option Text → Option Text → Option Text → Option ℕ → Result PairError (Unit {0})
  validate_public_pc pair_id fingerprint cert_der port = do
    pair ← or_err pair_id missing_pair_id
    print ← or_err fingerprint missing_fingerprint
    der ← or_err cert_der missing_certificate
    on_hash (validate_hash pair)
    on_hash (validate_hash print)
    ensure (leb (utf8_len der) 3072 && not (is_empty der)) certificate_size
    cert ← or_err (by.hex_decode der) bad_hex
    ensure (not (is_empty cert) && text_eq (by.hex_encode (sha256 cert)) print) fingerprint_differs
    ensure (is_port port) invalid_port

  unfoldable pub validate_packet : Packet → Result PairError (Unit {0})
  unfolding validate_name validate_public_pc
  validate_packet (discover nonce device_type) = on_hash (validate_hash nonce)
  validate_packet (announce nonce session name pc pair_id fingerprint cert_der port) = do
    on_hash (validate_hash nonce)
    on_hash (validate_hash session)
    validate_name name
    validate_public_pc pair_id fingerprint cert_der port
  validate_packet (announce nonce session name android pair_id fingerprint cert_der port) = do
    on_hash (validate_hash nonce)
    on_hash (validate_hash session)
    validate_name name
    ensure (is_absent pair_id && is_absent fingerprint && is_absent cert_der && is_absent port)
        android_with_pc_fields
  validate_packet (offer session name pair_id fingerprint cert_der port) = do
    on_hash (validate_hash session)
    validate_name name
    validate_public_pc (some pair_id) (some fingerprint) (some cert_der) (some port)

  unfoldable pub validate_pc_peer : Peer → Result PairError (Unit {0})
  unfolding validate_name validate_public_pc
  validate_pc_peer peer = do
    ensure (is_pc peer.device_type && is_ipv4 peer.endpoint.ip) invalid_pc_peer
    on_hash (validate_hash peer.session_id)
    validate_name peer.device_name
    validate_public_pc peer.pair_id peer.fingerprint peer.cert_der (some peer.endpoint.port)

  -- The invitation of `PairAccepted`, before the authentication under its secret.
  unfoldable pub pinned_invitation :
      (to_string : SocketAddr → Text) → Peer → Invitation → Result PairError Invitation
  pinned_invitation to_string peer invitation = do
    on_invitation (Invitation.validate by invitation)
    ensure (is_text invitation.pair_id peer.pair_id && is_text invitation.cert_der peer.cert_der)
        differs_from_pinned
    let called : Invitation = record invitation { address = to_string peer.endpoint }
    on_invitation (Invitation.validate by called)
    ok called

unfoldable pub offered_peer : Packet → SocketAddr → Result PairError Peer
offered_peer (offer session name pair_id fingerprint cert_der port) source = do
  ensure (is_ipv4 source.ip) invalid_source
  ok record {
    session_id = session;
    device_name = name;
    device_type = pc;
    pair_id = some pair_id;
    fingerprint = some fingerprint;
    cert_der = some cert_der;
    endpoint = record { ip = source.ip; port = port };
  }
offered_peer _ source = err not_an_offer

abbrev pub port_or : Option ℕ → ℕ → ℕ
port_or none port = port
port_or (some p) port = p

unfoldable pub peer_of : Packet → Text → SocketAddr → Result PairError Peer
peer_of (announce echoed session name device_type pair_id fingerprint cert_der port) nonce source =
    do
      ensure (text_eq echoed nonce && is_ipv4 source.ip) nonce_or_source
      ok record {
        session_id = session;
        device_name = name;
        device_type = device_type;
        pair_id = pair_id;
        fingerprint = fingerprint;
        cert_der = cert_der;
        endpoint = record { ip = source.ip; port = port_or port source.port };
      }
peer_of _ nonce source = err not_an_announcement
