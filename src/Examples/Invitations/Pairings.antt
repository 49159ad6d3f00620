-- ===== src/Examples/Invitations/Pairings.antt =====
-- A pairing of crates/rowd-core/src/pairing.rs that keeps the invitation of a PC that was found.
use rowd.Base.{ℕ, Text, codes, some, List, ok, text_eq, ◌≡◌, refl}
use rowd.Discovery.{SocketAddr, v4}
use rowd.Examples.Invitations.{codecs, invite}
use rowd.Examples.Rounds.{hash, repeat}
use rowd.Invitation
use rowd.Pairing.{Peer, pc, validate_pc_peer, pinned_invitation}
use rowd.Pairing.Pinned.{HasFingerprint, pinned_invitation_pinned}
use rowd.Paths.{validate_hash, utf8_len, is_control}

abbrev sha256 : List ℕ → List ℕ
sha256 bytes = repeat 32 0x11

abbrev to_string : SocketAddr → Text
to_string a = codes "192.168.0.7:4040"

abbrev peer : Peer
peer = record {
  session_id = hash b'4';
  device_name = codes "pc";
  device_type = pc;
  pair_id = some (hash b'3');
  fingerprint = some (hash b'1');
  cert_der = some (codes "30820a");
  endpoint = record { ip = v4 3232235527; port = 4040 };
}

accepted : validate_pc_peer codecs sha256 peer ≡ ok tt
unfolding validate_pc_peer validate_hash utf8_len is_control text_eq
accepted = refl

keeps : pinned_invitation codecs sha256 to_string peer invite ≡ ok invite
unfolding pinned_invitation Invitation.validate validate_hash text_eq
keeps = refl

pinned_invitation_pinned_example :
    (fingerprint : Text) × (peer.fingerprint ≡ some fingerprint)
    × HasFingerprint codecs sha256 invite.cert_der fingerprint
    × (peer.pair_id ≡ some invite.pair_id)
    × (invite.address ≡ to_string peer.endpoint)
    × (invite.secret ≡ invite.secret)
    × (Invitation.validate codecs invite ≡ ok tt)
pinned_invitation_pinned_example =
    pinned_invitation_pinned codecs sha256 to_string peer invite invite accepted keeps
