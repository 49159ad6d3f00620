-- ===== src/Examples/Packets.antt =====
-- A phone asks for its PC and is answered: crates/rowd-core/src/discovery.rs.
use rowd.Base.{
  ℕ, ◌<◌, true, all, ltb, ltb→lt, &&-split, List, [], ◌∷◌, All, ok, text_eq, ◌≡◌, ◌↔◌, refl,
}
use rowd.Discovery.{SocketAddr, v4, is_ipv4, discover_packet, announce_packet, endpoint}
use rowd.Discovery.Answers.{announcement, endpoint-accepts_iff}
use rowd.Examples.Rounds.{repeat}
use rowd.Invitation.{be_bytes_16, from_be_bytes_16}

abbrev nonce : List ℕ
nonce = repeat 32 7

abbrev fingerprint : List ℕ
fingerprint = repeat 32 9

abbrev source : SocketAddr
source = record { ip = v4 3232235777; port = 50000 }

abbrev address : SocketAddr
address = record { ip = v4 3232235777; port = 43822 }

abbrev packet : List ℕ
packet = announcement nonce fingerprint 43822

accepted : endpoint packet nonce fingerprint source ≡ ok address
unfolding endpoint text_eq be_bytes_16 from_be_bytes_16
accepted = refl

below : (bytes : List ℕ) → all (λ b. ltb b 256) bytes ≡ true → All (λ b. b < 256) bytes
below [] h = tt
below (b ∷ bytes) h =
    let (first, rest) = &&-split (ltb b 256) (all (λ c. ltb c 256) bytes) h in
    (ltb→lt b 256 first, below bytes rest)

small : All (λ b. b < 256) packet
unfolding be_bytes_16
small = below packet refl

endpoint-accepts_iff_example : (endpoint packet nonce fingerprint source ≡ ok address) ↔ (
    (port : ℕ) × (0 < port)
    × (port < 65536)
    × (is_ipv4 source.ip ≡ true)
    × (announce_packet (discover_packet nonce fingerprint) fingerprint port ≡ ok packet)
    × (address ≡ record { ip = source.ip; port = port }))
endpoint-accepts_iff_example =
    endpoint-accepts_iff packet nonce fingerprint source address refl refl small
