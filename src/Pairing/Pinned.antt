-- ===== src/Pairing/Pinned.antt =====
-- The certificate that a phone keeps from a pairing, crates/rowd-core/src/pairing.rs.
use rowd.Base.{
  ℕ, Text, text_eq, text_eq_iff, Option, none, some, true, not, ◌&&◌, &&-split, leb, List, Result,
  ok, err, ensure-bind, or_err, or_err-ok, ◌>>◌, >>=-eq-ok, ◌≡◌, refl, sym, ap, ◌∙◌, subst,
}
use rowd.Discovery.{SocketAddr, is_ipv4}
use rowd.Invitation
use rowd.Invitation.{Invitation, InviteError, Codecs}
use rowd.Pairing.{
  Peer, PairError, invalid_pc_peer, missing_pair_id, missing_fingerprint, missing_certificate,
  certificate_size, bad_hex, fingerprint_differs, differs_from_pinned, on_hash, on_invitation,
  validate_name, is_pc, is_text, validate_public_pc, validate_pc_peer, pinned_invitation,
}
use rowd.Paths.{validate_hash, utf8_len}
use rowd.Scan.{is_empty}

then-ok :
    {A : Type 0} (m : Result PairError (Unit {0})) (k : Result PairError A) {a : A}
    → (m >> k) ≡ ok a
    → (m ≡ ok tt) × (k ≡ ok a)
then-ok (ok u) k h = (refl, h)
then-ok (err e) k h = cc

on_invitation-ok : (r : Result InviteError (Unit {0})) → on_invitation r ≡ ok tt → r ≡ ok tt
on_invitation-ok (ok u) h = refl
on_invitation-ok (err e) h = cc

is_text→eq : (t : Text) (o : Option Text) → is_text t o ≡ true → o ≡ some t
is_text→eq t none h = cc
is_text→eq t (some u) h = ap some (sym ((text_eq_iff t u).0 h))

module _ (by : Codecs) (sha256 : List ℕ → List ℕ) where
  -- The certificate has the fingerprint.
  abbrev pub HasFingerprint : Text → Text → Type 0
  HasFingerprint cert_der fingerprint =
      (cert : List ℕ) × (by.hex_decode cert_der ≡ some cert)
      × (by.hex_encode (sha256 cert) ≡ fingerprint)

  public-fingerprint :
      (pair_id fingerprint cert_der : Option Text) (port : Option ℕ)
      → validate_public_pc by sha256 pair_id fingerprint cert_der port ≡ ok tt
      → (print : Text) × (der : Text) × (fingerprint ≡ some print)
        × (cert_der ≡ some der)
        × HasFingerprint der print
  unfolding validate_public_pc
  public-fingerprint pair_id fingerprint cert_der port h =
      let (pair, _, h1) = >>=-eq-ok (or_err pair_id missing_pair_id) _ h in
      let (print, is_print, h2) = >>=-eq-ok (or_err fingerprint missing_fingerprint) _ h1 in
      let (der, is_der, h3) = >>=-eq-ok (or_err cert_der missing_certificate) _ h2 in
      let (_, h4) = then-ok (on_hash (validate_hash pair)) _ h3 in
      let (_, h5) = then-ok (on_hash (validate_hash print)) _ h4 in
      let (_, h6) =
        ensure-bind (leb (utf8_len der) 3072 && not (is_empty der)) certificate_size _ h5 in
      let (cert, is_cert, h7) = >>=-eq-ok (or_err (by.hex_decode der) bad_hex) _ h6 in
      let (same, _) =
        ensure-bind (not (is_empty cert) && text_eq (by.hex_encode (sha256 cert)) print)
          fingerprint_differs _ h7 in
      let (_, equal) =
        &&-split (not (is_empty cert)) (text_eq (by.hex_encode (sha256 cert)) print) same in
      (
        print,
        der,
        or_err-ok _ _ is_print,
        or_err-ok _ _ is_der,
        (cert, or_err-ok _ _ is_cert, (text_eq_iff _ _).0 equal),
      )

-- Where a peer was accepted before the request and the invitation that came after it is kept: the certificate that is kept
-- has the fingerprint of the peer, the pair is the peer's, the address is the one the peer was found at, the secret is
-- the one that was sent, and the invitation is valid.
pub pinned_invitation_pinned :
    (by : Codecs) (sha256 : List ℕ → List ℕ) (to_string : SocketAddr → Text) (peer : Peer)
    → (invitation invite : Invitation) → validate_pc_peer by sha256 peer ≡ ok tt
    → pinned_invitation by sha256 to_string peer invitation ≡ ok invite
    → (fingerprint : Text) × (peer.fingerprint ≡ some fingerprint)
      × HasFingerprint by sha256 invite.cert_der fingerprint
      × (peer.pair_id ≡ some invite.pair_id)
      × (invite.address ≡ to_string peer.endpoint)
      × (invite.secret ≡ invitation.secret)
      × (Invitation.validate by invite ≡ ok tt)
unfolding validate_pc_peer pinned_invitation
pinned_invitation_pinned by sha256 to_string peer invitation invite accepted keeps =
    let (_, a1) =
      ensure-bind (is_pc peer.device_type && is_ipv4 peer.endpoint.ip) invalid_pc_peer _ accepted in
    let (_, a2) = then-ok (on_hash (validate_hash peer.session_id)) _ a1 in
    let (_, a3) = then-ok (validate_name peer.device_name) _ a2 in
    let (print, der, is_print, is_der, has) =
      public-fingerprint by sha256 peer.pair_id peer.fingerprint peer.cert_der
        (some peer.endpoint.port) a3 in
    let (_, k1) = then-ok (on_invitation (Invitation.validate by invitation)) _ keeps in
    let (same, k2) =
      ensure-bind
        (is_text invitation.pair_id peer.pair_id && is_text invitation.cert_der peer.cert_der)
        differs_from_pinned _ k1 in
    let called : Invitation = record invitation { address = to_string peer.endpoint } in
    let (valid, is) = then-ok (on_invitation (Invitation.validate by called)) _ k2 in
    let (same_pair, same_cert) =
      &&-split (is_text invitation.pair_id peer.pair_id) (is_text invitation.cert_der peer.cert_der)
        same in
    let here : called ≡ invite = cc in
    let ders : some der ≡ some invitation.cert_der =
      sym is_der ∙ is_text→eq invitation.cert_der peer.cert_der same_cert in
    let certs : der ≡ invitation.cert_der = cc in
    subst
      (λ i.
        (fingerprint : Text) × (peer.fingerprint ≡ some fingerprint)
        × HasFingerprint by sha256 i.cert_der fingerprint
        × (peer.pair_id ≡ some i.pair_id)
        × (i.address ≡ to_string peer.endpoint)
        × (i.secret ≡ invitation.secret)
        × (Invitation.validate by i ≡ ok tt))
      here
      (
        print,
        is_print,
        subst (λ d. HasFingerprint by sha256 d print) certs has,
        is_text→eq invitation.pair_id peer.pair_id same_pair,
        refl,
        refl,
        on_invitation-ok _ valid,
      )
