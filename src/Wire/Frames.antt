-- ===== src/Wire/Frames.antt =====
-- Frames of crates/rowd-core/src/protocol.rs, one after the other in a stream.
use rowd.Base.{
  ℕ, ◌%◌, ◌^◌, ◌<◌, Text, text_eq_refl, List, ◌++◌, length, leb, leb→le, ok, ensure, ◌≡◌, ◌≢◌, refl,
  ◌∙◌, ap, arith, true, false, Bool-cases, inl, inr, append_assoc, or_err, some,
}
use rowd.Base.Readers.{read_exact-append, step, step-lift}
use rowd.Wire.{
  unexpected_eof, Message, scoped, Json, frame_too_large, malformed, read_exact, be_bytes,
  from_be_bytes, send, receive, send_for, receive_for, max_frame, check_peer_error, unscope, lift,
}

from_be_bytes-be_bytes : (n : ℕ) → n < 2 ^ 32 → from_be_bytes (be_bytes n) ≡ n
unfolding from_be_bytes be_bytes
from_be_bytes-be_bytes n h = omega arith

read_length :
    (n : ℕ) (bs : List ℕ) → read_exact unexpected_eof 4 (be_bytes n ++ bs) ≡ ok (be_bytes n, bs)
unfolding be_bytes
read_length n bs = read_exact-append unexpected_eof (be_bytes n) bs

module _ (json : Json) where
  receive-frame :
      (m : Message) (bytes rest : List ℕ)
      → leb (length bytes) max_frame ≡ true
      → json.from_slice bytes ≡ some m
      → check_peer_error m ≡ ok m
      → receive json (be_bytes (length bytes % 2 ^ 32) ++ (bytes ++ rest)) ≡ ok (m, rest)
  unfolding receive
  receive-frame m bytes rest fits reads fine =
      step _ _ _ (read_length (length bytes % 2 ^ 32) (bytes ++ rest))
      ∙ rw (size) (
          step-lift _ _ _ (ap (λ b. ensure b frame_too_large) fits)
          ∙ step _ _ _ (read_exact-append unexpected_eof bytes rest)
          ∙ step-lift _ _ _ (ap (λ o. or_err o malformed) reads)
          ∙ unfold lift in rw fine refl)
    where
      size : from_be_bytes (be_bytes (length bytes % 2 ^ 32)) ≡ length bytes
      size =
          from_be_bytes-be_bytes (length bytes % 2 ^ 32) (omega arith)
          ∙ ground (arith, leb→le (length bytes) max_frame fits)

  not_sent :
      (m : Message) → leb (length (json.to_vec m)) max_frame ≡ false → (send json m).0 ≢ ok tt
  unfolding send
  not_sent m big passed = ground (arith, big, passed)

  send-ok :
      (m : Message)
      → (send json m).0 ≡ ok tt
      → (leb (length (json.to_vec m)) max_frame ≡ true)
        × ((send json m).1 ≡ be_bytes (length (json.to_vec m) % 2 ^ 32) ++ json.to_vec m)
  unfolding send
  send-ok m passed = elim (Bool-cases (leb (length (json.to_vec m)) max_frame)) [
    | inl fits ↦ (fits, rw fits refl)
    | inr big ↦ absurd (not_sent m big passed)
  ]

  pub receive-send :
      (m : Message) (rest : List ℕ)
      → check_peer_error m ≡ ok m
      → (send json m).0 ≡ ok tt
      → receive json ((send json m).1 ++ rest) ≡ ok (m, rest)
  receive-send m rest fine passed =
      let (fits, bytes) = send-ok m passed in
      rw (bytes, append_assoc (be_bytes (length (json.to_vec m) % 2 ^ 32)) (json.to_vec m) rest)
        (receive-frame m (json.to_vec m) rest fits (json.reads m) fine)

  pub receive_for-send_for :
      (share : Text) (m : Message) (rest : List ℕ)
      → check_peer_error m ≡ ok m
      → (send_for json share m).0 ≡ ok tt
      → receive_for json share ((send_for json share m).1 ++ rest) ≡ ok (m, rest)
  unfolding receive_for send_for unscope lift
  receive_for-send_for share m rest fine passed =
      step _ _ _ (receive-send (scoped share m) rest refl passed)
      ∙ rw (text_eq_refl share, fine) refl
