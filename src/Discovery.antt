-- ===== src/Discovery.antt =====
-- The packets by which a phone finds its PC: crates/rowd-core/src/discovery.rs. A response never establishes trust.
pub mod Slices
pub mod Answers
use rowd.Base.{
  ℕ, ◌+◌, Text, codes, Bool, true, false, not, ◌&&◌, ◌==◌, List, [], ◌∷◌, ◌++◌, length, take, drop,
  text_eq, Result, ok, err, ensure, ◌>>◌,
}
use rowd.Invitation.{be_bytes_16, from_be_bytes_16}

abbrev pub magic : List ℕ
magic = codes "ROWD"

-- VERSION, DISCOVER and ANNOUNCE
abbrev pub version : ℕ
version = 1

abbrev pub discover : ℕ
discover = 1

abbrev pub announce : ℕ
announce = 2

abbrev pub header_len : ℕ
header_len = 6

abbrev pub request_len : ℕ
request_len = 70

abbrev pub response_len : ℕ
response_len = 72

pub data Ip : Type 0 where
  v4 v6 : (address : ℕ) → Ip

pub record SocketAddr : Type 0 where
  pub ip : Ip
  pub port : ℕ

abbrev pub is_ipv4 : Ip → Bool
is_ipv4 (v4 a) = true
is_ipv4 (v6 a) = false

pub data DiscoveryError : Type 0 where
  invalid_request fingerprint_mismatch invalid_port invalid_response response_mismatch :
      DiscoveryError
  invalid_endpoint : DiscoveryError

-- `==` of two slices of bytes
abbrev pub bytes_eq : List ℕ → List ℕ → Bool
bytes_eq = text_eq

-- The bytes from one place up to another.
abbrev pub slice : ℕ → ℕ → List ℕ → List ℕ
slice from len bytes = take len (drop from bytes)

unfoldable pub discover_packet : List ℕ → List ℕ → List ℕ
discover_packet nonce fingerprint = magic ++ (version ∷ discover ∷ (nonce ++ fingerprint))

-- The length, the magic and the kind of a packet.
abbrev pub is_packet : ℕ → ℕ → List ℕ → Bool
is_packet len kind packet =
    (length packet == len)
    && bytes_eq (slice 0 4 packet) magic
    && bytes_eq (slice 4 2 packet) (version ∷ kind ∷ [])

unfoldable pub announce_packet : List ℕ → List ℕ → ℕ → Result DiscoveryError (List ℕ)
unfolding be_bytes_16
announce_packet request fingerprint port = do
  ensure (is_packet request_len discover request) invalid_request
  ensure (bytes_eq (slice 38 32 request) fingerprint) fingerprint_mismatch
  ensure (not (port == 0)) invalid_port
  ok (
      magic
      ++ (version ∷ announce ∷ (slice header_len 32 request ++ (fingerprint ++ be_bytes_16 port))))

unfoldable pub endpoint : List ℕ → List ℕ → List ℕ → SocketAddr → Result DiscoveryError SocketAddr
unfolding from_be_bytes_16
endpoint packet nonce fingerprint source = do
  ensure (is_packet response_len announce packet) invalid_response
  ensure (bytes_eq (slice header_len 32 packet) nonce && bytes_eq (slice 38 32 packet) fingerprint)
      response_mismatch
  let port = from_be_bytes_16 (drop request_len packet)
  ensure (not (port == 0) && is_ipv4 source.ip) invalid_endpoint
  ok (record { ip = source.ip; port = port })
