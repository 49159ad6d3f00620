-- ===== src/Wire/Manifests/Truncation.antt =====
-- A manifest of crates/rowd-core/src/protocol.rs on a connection that is lost.
use rowd.Base.{
  ℕ, zero, suc, Text, List, [], ◌∷◌, ◌++◌, append-nil, Result, ok, err, ◌≡◌, ◌≢◌, sym, ap, ◌∙◌,
  Ascending,
}
use rowd.Model.{Manifest}
use rowd.Wire.{Json, WireError, StoreMetrics}
use rowd.Wire.Locality.{Local, Local-pure, Local-lift, Local-bind, Local-if, receive_for-Local}
use rowd.Wire.Manifests.{send_manifest, receive_chunks, receive_manifest}
use rowd.Wire.Manifests.RoundTrip.{receive_manifest-send_manifest}

module _ (json : Json) (share : Text) where
  receive_chunks-Local :
      (fuel count : ℕ) (files : Manifest) → Local (receive_chunks json share fuel count files)
  unfolding receive_chunks
  receive_chunks-Local zero count files = Local-if _ _ _ (Local-lift _) (Local-pure files)
  receive_chunks-Local (suc fuel) count files =
      Local-if _ _ _
        (Local-bind _ _ (receive_for-Local json share) λ message.
          Local-bind _ _ (Local-lift _)
            λ chunk. Local-bind _ _ (Local-lift _) λ more. receive_chunks-Local fuel count more)
        (Local-pure files)

  receive_manifest-Local : (lower : Text → Text) → Local (receive_manifest json share lower)
  unfolding receive_manifest
  receive_manifest-Local lower = Local-bind _ _ (receive_for-Local json share) λ first.
      Local-bind _ _ (Local-lift _) λ count. Local-bind _ _ (Local-lift _) λ _.
        Local-bind _ _ (receive_chunks-Local count count []) λ files.
          Local-bind _ _ (receive_for-Local json share) λ last.
            Local-bind _ _ (Local-lift _) λ metrics. Local-bind _ _ (Local-lift _) λ _. Local-pure _

no_rest : (r : List ℕ) (c : ℕ) (cs : List ℕ) → r ++ c ∷ cs ≢ []
no_rest [] c cs e = cc
no_rest (x ∷ r) c cs e = cc

abbrev rest_of {ℓ} : {A : Type ℓ} → Result WireError (A × List ℕ) → List ℕ
rest_of (ok (a, r)) = r
rest_of (err e) = []

-- Where the connection is lost before the last byte of a manifest, nothing is accepted as a manifest.
pub receive_manifest-truncated :
    (json : Json) (share : Text) (lower : Text → Text) (files : Manifest) (metrics : StoreMetrics)
    (before : List ℕ) (c : ℕ) (lost : List ℕ)
    → Ascending files
    → (send_manifest json share lower files metrics).0 ≡ ok tt
    → (send_manifest json share lower files metrics).1 ≡ before ++ c ∷ lost
    → (x : (Manifest × StoreMetrics) × List ℕ) → receive_manifest json share lower before ≢ ok x
receive_manifest-truncated json share lower files metrics before c lost h passed whole (x, r) read =
    let on = (receive_manifest-Local json share lower).at before (c ∷ lost) x r read in
    let all = receive_manifest-send_manifest json share lower files metrics [] h passed in
    no_rest r c lost (
      ap rest_of
        (sym on ∙ ap (receive_manifest json share lower) (sym whole ∙ sym (append-nil _)) ∙ all))
