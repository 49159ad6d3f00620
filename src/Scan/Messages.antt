-- ===== src/Scan/Messages.antt =====
-- The messages and the state of a scan, `ScanStream` of crates/rowd-core/src/protocol.rs.
use rowd.Base.{
  ℕ, Text, Option, none, some, Bool, true, false, not, ◌&&◌, leb, List, [], ◌∷◌, length, Result, ok,
  err,
}
use rowd.Model.{Entry, Manifest}
use rowd.Model.Manifests.{ManifestError}
use rowd.Model.Namespaces.{Namespace}
use rowd.Paths.{PathError}
use rowd.Wire.{StoreMetrics, WireError}

abbrev pub scan_stream_chunk_files : ℕ
scan_stream_chunk_files = 32

pub record ScanStreamMetrics : Type 0 where
  pub namespace_ms : ℕ
  pub time_to_first_hash_ms : Option ℕ
  pub hashes_calculated : ℕ
  pub hashes_reused : ℕ
  pub files_staged_during_hash : ℕ
  pub duplicate_reads_avoided : ℕ
  pub queue_peak_chunks : ℕ
  pub queue_wait_ms : ℕ
  pub saf_source_lookup_fallback_count : ℕ

-- The messages of a scan and those that the phone answers; `other_message` is any of the rest.
pub data ScanMessage : Type 0 where
  scan scan_ready scan_continue accept need_full_scan : ScanMessage
  ack_batch : (entries : Manifest) → ScanMessage
  hash_stream_begin : (scan_id binding : Text) → ScanMessage
  hash_stage_hint hash_release : (scan_id : Text) (paths : List Text) → ScanMessage
  stage_put :
      (scan_id : Text) (sequence : ℕ) (path : Text) → Entry → (expected : Option Text) → ScanMessage
  stage_received install_staged : (scan_id : Text) (sequence : ℕ) → ScanMessage
  get legacy_hash : (path : Text) → Entry → ScanMessage
  legacy_hash_result : (hash : Text) → ScanMessage
  blob : Entry → ScanMessage
  put : (path : Text) → Entry → (expected : Option Text) → ScanMessage
  delta_scan : (base_token : Text) (paths : List Text) → ScanMessage
  delta_manifest : (paths : List Text) (files : Manifest) → StoreMetrics → ScanMessage
  done : (transferred conflicts : ℕ) (base_token : Text) → ScanMessage
  scan_stream_begin : (scan_id binding : Text) → ScanMessage
  namespace_chunk : (scan_id : Text) (sequence : ℕ) (entries : Namespace) → ScanMessage
  namespace_end :
      (scan_id : Text) (last_sequence total_entries : ℕ) (namespace_digest : Text) → ScanMessage
  hash_next : (scan_id : Text) (sequence : ℕ) → ScanMessage
  hash_chunk : (scan_id : Text) (sequence : ℕ) (files : Manifest) → ScanMessage
  hash_stream_end :
      (scan_id : Text) (last_sequence total_entries : ℕ)
      → StoreMetrics
      → ScanStreamMetrics
      → ScanMessage
  audit_preempt : (shares : List Text) → ScanMessage
  scan_alive scan_deferred other_message : ScanMessage

pub data ScanError : Type 0 where
  closed timed_out scan_was_deferred expected_stream_begin invalid_binding : ScanError
  misaligned_namespace_chunk invalid_namespace_chunk_size duplicate_namespace_path : ScanError
  too_many_namespace_entries misaligned_namespace_end digest_mismatch : ScanError
  unexpected_namespace_frame already_ended misaligned_hash_chunk invalid_hash_chunk_size : ScanError
  absent_path differs_or_duplicated misaligned_stream_end incomplete_stream : ScanError
  unexpected_hash_frame : ScanError
  bad_id : PathError → ScanError
  invalid : ManifestError → ScanError
  from_wire : WireError → ScanError

-- What the connection gives: a message, the error of `receive_for`, a read that would block with what the control then
-- answers, or a silence of 90 seconds.
pub data Event : Type 0 where
  frame : ScanMessage → Event
  broken : WireError → Event
  blocked : (answer : Option (List Text)) → Event
  silent : Event

pub record ScanStream : Type 0 where
  pub scan_id : Text
  pub binding : Text
  pub namespace : Namespace
  pub sequence : ℕ
  pub seen : List Text
  pub ended : Bool

abbrev pub on_scan {ℓ} : {A : Type ℓ} → Result ManifestError A → Result ScanError A
on_scan (ok a) = ok a
on_scan (err e) = err (invalid e)

abbrev pub on_id : Result PathError (Unit {0}) → Result ScanError (Unit {0})
on_id (ok u) = ok tt
on_id (err e) = err (bad_id e)

abbrev pub is_absent {ℓ} : {V : Type ℓ} → Option V → Bool
is_absent none = true
is_absent (some v) = false

abbrev pub is_empty {ℓ} : {A : Type ℓ} → List A → Bool
is_empty [] = true
is_empty (x ∷ xs) = false

-- `!is_empty() && len() <= SCAN_STREAM_CHUNK_FILES`
abbrev pub fits_chunk {ℓ} : {A : Type ℓ} → List A → Bool
fits_chunk xs = not (is_empty xs) && leb (length xs) scan_stream_chunk_files
