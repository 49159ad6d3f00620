-- ===== src/Scan/Pulls.antt =====
-- What a call of `ScanStream::next_with_control` of crates/rowd-core/src/protocol.rs may do to the stream.
use rowd.Base.{
  ℕ, suc, Text, Option, none, some, Bool, true, false, not, ◌&&◌, text_eq, List, [], ◌∷◌, length,
  ◌==◌, ==_iff, Result, ok, err, ensure-bind, >>=-eq-ok, ◌>>◌, ◌≡◌, refl, ap, subst,
}
use rowd.Model.{Manifest}
use rowd.Model.Manifests.{validate_manifest}
use rowd.Model.Namespaces.{only_files}
use rowd.Wire.{StoreMetrics}
use rowd.Scan.{
  ScanStreamMetrics, ScanMessage, ScanError, Event, frame, broken, blocked, silent, hash_chunk,
  hash_stream_end, scan_alive, ScanStream, Pulled, check_hashes, accept_hash_chunk,
  accept_stream_end, pull, next_with_control, on_scan, misaligned_hash_chunk,
  invalid_hash_chunk_size, fits_chunk, misaligned_stream_end, incomplete_stream, already_ended,
}

pub then-ok :
    {A : Type 0} (m : Result ScanError (Unit {0})) (k : Result ScanError A) {a : A}
    → (m >> k) ≡ ok a
    → (m ≡ ok tt) × (k ≡ ok a)
then-ok (ok u) k h = (refl, h)
then-ok (err e) k h = cc

-- A chunk whose paths pass, or the end with as many paths as there are files.
abbrev pub Took : ScanStream → Option Manifest → ScanStream → Type 0
Took s none t = (length s.seen ≡ length (only_files s.namespace)) × (t ≡ record s { ended = true })
Took s (some files) t =
    (seen : List Text) × (check_hashes s.namespace s.seen files ≡ ok seen)
    × (t ≡ record s { seen = seen; sequence = suc s.sequence })

abbrev Takes : ScanStream → Pulled → Type 0
Takes s p = Took s p.files p.stream

abbrev or_of : Result ScanError Pulled → Pulled → Pulled
or_of (ok p) q = p
or_of (err e) q = q

module _ (lower : Text → Text) where
  accept_hash_chunk-Took :
      (s : ScanStream) (scan_id : Text) (sequence : ℕ) (files : Manifest) (sent : List ScanMessage)
      → (unread : List Event) → {p : Pulled}
      → accept_hash_chunk lower s scan_id sequence files sent unread ≡ ok p
      → Takes s p
  unfolding accept_hash_chunk
  accept_hash_chunk-Took s scan_id sequence files sent unread {p} h =
      let (_, sized) =
        ensure-bind (text_eq scan_id s.scan_id && (sequence == s.sequence)) misaligned_hash_chunk _
          h in
      let (_, validated) = ensure-bind (fits_chunk files) invalid_hash_chunk_size _ sized in
      let (_, checks) = then-ok (on_scan (validate_manifest lower files)) _ validated in
      let (seen, passes, is) = >>=-eq-ok (check_hashes s.namespace s.seen files) _ checks in
      let took : Took s (some files) (record s { seen = seen; sequence = suc s.sequence }) =
        (seen, passes, refl) in
      subst (Takes s) (ap (λ r. or_of r p) is) took

accept_stream_end-Took :
    (s : ScanStream) (scan_id : Text) (last total : ℕ) (metrics : StoreMetrics)
    → (pipeline : ScanStreamMetrics) (sent : List ScanMessage) (unread : List Event) → {p : Pulled}
    → accept_stream_end s scan_id last total metrics pipeline sent unread ≡ ok p
    → Takes s p
unfolding accept_stream_end
accept_stream_end-Took s scan_id last total metrics pipeline sent unread {p} h =
    let (_, counted) =
      ensure-bind (text_eq scan_id s.scan_id && (last == s.sequence) && (total == length s.seen))
        misaligned_stream_end _ h in
    let (all, is) =
      ensure-bind (length s.seen == length (only_files s.namespace)) incomplete_stream _ counted in
    let took : Took s none (record s { ended = true }) = ((==_iff _ _).0 all, refl) in
    subst (Takes s) (ap (λ r. or_of r p) is) took

module _ (lower : Text → Text) where
  pull-Took :
      (s : ScanStream) (preempted : Bool) (sent : List ScanMessage) (events : List Event)
      → {p : Pulled} → pull lower s preempted sent events ≡ ok p
      → Takes s p
  unfolding pull
  pull-Took s preempted sent [] h = cc
  pull-Took s preempted sent (broken e ∷ events) h = cc
  pull-Took s preempted sent (silent ∷ events) h = cc
  pull-Took s false sent (blocked (some (share ∷ shares)) ∷ events) h = pull-Took s true _ events h
  pull-Took s true sent (blocked (some (share ∷ shares)) ∷ events) h =
      pull-Took s true sent events h
  pull-Took s false sent (blocked (some []) ∷ events) h = pull-Took s false sent events h
  pull-Took s true sent (blocked (some []) ∷ events) h = pull-Took s true sent events h
  pull-Took s false sent (blocked none ∷ events) h = pull-Took s false sent events h
  pull-Took s true sent (blocked none ∷ events) h = pull-Took s true sent events h
  pull-Took s false sent (frame (hash_chunk scan_id sequence files) ∷ events) h =
      accept_hash_chunk-Took lower s scan_id sequence files sent events h
  pull-Took s true sent (frame (hash_chunk scan_id sequence files) ∷ events) h =
      pull-Took s true sent events h
  pull-Took s false sent (frame (hash_stream_end scan_id last total metrics pipeline) ∷ events) h =
      accept_stream_end-Took s scan_id last total metrics pipeline sent events h
  pull-Took s true sent (frame (hash_stream_end scan_id last total metrics pipeline) ∷ events) h =
      pull-Took s true sent events h
  pull-Took s false sent (frame scan_alive ∷ events) h = pull-Took s false sent events h
  pull-Took s true sent (frame scan_alive ∷ events) h = pull-Took s true sent events h
  pull-Took s preempted sent (frame _ ∷ events) h = cc

  -- What one call takes.
  pub next_with_control-Took :
      (s : ScanStream) (events : List Event) {p : Pulled}
      → next_with_control lower s events ≡ ok p
      → Took s p.files p.stream
  unfolding next_with_control
  next_with_control-Took s events h =
      let (_, pulls) = ensure-bind (not s.ended) already_ended _ h in
      pull-Took s false _ events pulls
