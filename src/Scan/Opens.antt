-- ===== src/Scan/Opens.antt =====
-- A namespace that was received, `ScanStream::receive_namespace` of crates/rowd-core/src/protocol.rs.
use rowd.Base.{
  ℕ, ◌*◌, Text, text_eq, false, ◌&&◌, ◌==◌, leb, List, [], ◌∷◌, length, Result, ok, err,
  ensure-bind, >>=-eq-ok, ◌≡◌, refl, ap, subst,
}
use rowd.Model.{max_files}
use rowd.Model.Manifests.{ManifestError}
use rowd.Model.Namespaces.{Namespace, validate_namespace}
use rowd.Paths.{validate_hash, utf8_len}
use rowd.Scan.{
  ScanError, ScanStream, Event, frame, broken, blocked, silent, namespace_chunk, namespace_end,
  scan_alive, on_id, on_scan, invalid_binding, misaligned_namespace_chunk, fits_chunk,
  invalid_namespace_chunk_size, add_entries, too_many_namespace_entries, misaligned_namespace_end,
  digest_mismatch, receive_begin, open_stream, accept_namespace_chunk, accept_namespace_end,
  receive_entries, receive_namespace,
}
use rowd.Scan.Pulls.{then-ok}

-- A stream whose namespace is accepted and none of whose hashes came.
pub record IsOpen (lower : Text → Text) (s : ScanStream) : Type 0 where
  pub unseen : s.seen ≡ []
  pub not_ended : s.ended ≡ false
  pub at_start : s.sequence ≡ 0
  pub valid : validate_namespace lower s.namespace ≡ ok tt

abbrev Blank : ScanStream → Type 0
Blank s = (s.seen ≡ []) × (s.ended ≡ false)

abbrev or_stream : ScanStream → Result ScanError ScanStream → ScanStream
or_stream s (ok t) = t
or_stream s (err e) = s

on_scan-ok : (r : Result ManifestError (Unit {0})) → on_scan r ≡ ok tt → r ≡ ok tt
on_scan-ok (ok u) h = refl
on_scan-ok (err e) h = cc

open_stream-Blank :
    (scan_id binding : Text) (s : ScanStream) → open_stream scan_id binding ≡ ok s → Blank s
unfolding open_stream
open_stream-Blank scan_id binding s h =
    let (_, bound) = then-ok (on_id (validate_hash scan_id)) _ h in
    let (_, is) = ensure-bind (leb (utf8_len binding) 65536) invalid_binding _ bound in
    subst Blank (ap (or_stream s) is) (refl, refl)

accept_namespace_chunk-Blank :
    (s : ScanStream) (scan_id : Text) (sequence : ℕ) (entries : Namespace) (t : ScanStream)
    → accept_namespace_chunk s scan_id sequence entries ≡ ok t
    → Blank s
    → Blank t
unfolding accept_namespace_chunk
accept_namespace_chunk-Blank s scan_id sequence entries t h blank =
    let (_, sized) =
      ensure-bind (text_eq scan_id s.scan_id && (sequence == s.sequence)) misaligned_namespace_chunk
        _ h in
    let (_, adds) = ensure-bind (fits_chunk entries) invalid_namespace_chunk_size _ sized in
    let (namespace, _, bound) = >>=-eq-ok (add_entries s.namespace entries) _ adds in
    let (_, is) =
      ensure-bind (leb (length namespace) (max_files * 2)) too_many_namespace_entries _ bound in
    subst Blank (ap (or_stream t) is) blank

module _ (lower : Text → Text) (digest : Namespace → Text) where
  accept_namespace_end-IsOpen :
      (s : ScanStream) (scan_id : Text) (last total : ℕ) (d : Text) (t : ScanStream)
      → accept_namespace_end lower digest s scan_id last total d ≡ ok t
      → Blank s
      → IsOpen lower t
  unfolding accept_namespace_end
  accept_namespace_end-IsOpen s scan_id last total d t h (unseen, not_ended) =
      let (_, digests) =
        ensure-bind
          (text_eq scan_id s.scan_id && (last == s.sequence) && (total == length s.namespace))
          misaligned_namespace_end _ h in
      let (_, validates) = ensure-bind (text_eq d (digest s.namespace)) digest_mismatch _ digests in
      let (valid, is) = then-ok (on_scan (validate_namespace lower s.namespace)) _ validates in
      let opened : IsOpen lower (record s { sequence = 0 }) = record {
        unseen = unseen;
        not_ended = not_ended;
        at_start = refl;
        valid = on_scan-ok _ valid;
      } in
      subst (IsOpen lower) (ap (or_stream t) is) opened

  receive_entries-IsOpen :
      (s : ScanStream) (events : List Event) (t : ScanStream) (rest : List Event)
      → receive_entries lower digest s events ≡ ok (t, rest)
      → Blank s
      → IsOpen lower t
  unfolding receive_entries
  receive_entries-IsOpen s [] t rest h blank = cc
  receive_entries-IsOpen s (frame (namespace_chunk scan_id n entries) ∷ events) t rest h blank =
      let (next, accepts, later) = >>=-eq-ok (accept_namespace_chunk s scan_id n entries) _ h in
      receive_entries-IsOpen next events t rest later
        (accept_namespace_chunk-Blank s scan_id n entries next accepts blank)
  receive_entries-IsOpen s (frame (namespace_end scan_id last total d) ∷ events) t rest h blank =
      let (next, accepts, is) =
        >>=-eq-ok (accept_namespace_end lower digest s scan_id last total d) _ h in
      let same : next ≡ t = cc in
      subst (IsOpen lower) same
        (accept_namespace_end-IsOpen s scan_id last total d next accepts blank)
  receive_entries-IsOpen s (frame scan_alive ∷ events) t rest h blank =
      receive_entries-IsOpen s events t rest h blank
  receive_entries-IsOpen s (broken e ∷ events) t rest h blank = cc
  receive_entries-IsOpen s (blocked answer ∷ events) t rest h blank = cc
  receive_entries-IsOpen s (silent ∷ events) t rest h blank = cc
  receive_entries-IsOpen s (frame _ ∷ events) t rest h blank = cc

  pub receive_namespace-IsOpen :
      (events : List Event) (t : ScanStream) (rest : List Event)
      → receive_namespace lower digest events ≡ ok (t, rest)
      → IsOpen lower t
  unfolding receive_namespace
  receive_namespace-IsOpen events t rest h =
      let (((scan_id, binding), after), _, opens) = >>=-eq-ok (receive_begin events) _ h in
      let (s, is, receives) = >>=-eq-ok (open_stream scan_id binding) _ opens in
      receive_entries-IsOpen s after t rest receives (open_stream-Blank scan_id binding s is)
