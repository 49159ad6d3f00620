-- ===== src/Scan/Hashes.antt =====
-- `ScanStream::next_with_control` of crates/rowd-core/src/protocol.rs.
use rowd.Base.{
  ℕ, suc, Text, lookup, text_eq, Option, none, some, Bool, true, false, not, ◌&&◌, ◌==◌, List, [],
  ◌∷◌, ◌++◌, length, has, Result, ok, err, ensure, or_err, ◌>>◌, ◌>>=◌,
}
use rowd.Model.{Manifest}
use rowd.Model.Manifests.{validate_manifest}
use rowd.Model.Namespaces.{Namespace, only_files}
use rowd.Wire.{StoreMetrics}
use rowd.Scan.Messages.{
  ScanStreamMetrics, ScanMessage, ScanError, Event, ScanStream, on_scan, fits_chunk, hash_next,
  hash_chunk, hash_stream_end, audit_preempt, scan_alive, scan_deferred, closed, timed_out,
  scan_was_deferred, already_ended, misaligned_hash_chunk, invalid_hash_chunk_size, absent_path,
  differs_or_duplicated, misaligned_stream_end, incomplete_stream, unexpected_hash_frame, from_wire,
  frame, broken, blocked, silent,
}

-- Each hashed path against the namespace, and then into those that were seen.
unfoldable pub check_hashes : Namespace → List Text → Manifest → Result ScanError (List Text)
check_hashes namespace seen [] = ok seen
check_hashes namespace seen ((path, entry) ∷ files) =
    or_err (lookup path namespace) absent_path >>= λ physical.
    ensure (not physical.directory && (physical.size == entry.size) && not (has seen path))
      differs_or_duplicated
    >> check_hashes namespace (seen ++ (path ∷ [])) files

-- What a call of `next_with_control` returns, the stream after it, what it sent and what it left unread.
pub record Pulled : Type 0 where
  pub files : Option Manifest
  pub metrics : StoreMetrics
  pub pipeline : ScanStreamMetrics
  pub stream : ScanStream
  pub sent : List ScanMessage
  pub unread : List Event

abbrev pub no_metrics : StoreMetrics
no_metrics = record {
  files_enumerated = 0;
  files_hashed = 0;
  bytes_hashed = 0;
  staging_copies = 0;
  full_scans = 0;
}

abbrev pub no_pipeline : ScanStreamMetrics
no_pipeline = record {
  namespace_ms = 0;
  time_to_first_hash_ms = none;
  hashes_calculated = 0;
  hashes_reused = 0;
  files_staged_during_hash = 0;
  duplicate_reads_avoided = 0;
  queue_peak_chunks = 0;
  queue_wait_ms = 0;
  saf_source_lookup_fallback_count = 0;
}

module _ (lower : Text → Text) where
  unfoldable pub accept_hash_chunk :
      ScanStream → Text → ℕ → Manifest → List ScanMessage → List Event → Result ScanError Pulled
  unfolding check_hashes
  accept_hash_chunk stream scan_id sequence files sent unread = do
    ensure (text_eq scan_id stream.scan_id && (sequence == stream.sequence)) misaligned_hash_chunk
    ensure (fits_chunk files) invalid_hash_chunk_size
    on_scan (validate_manifest lower files)
    seen ← check_hashes stream.namespace stream.seen files
    ok record {
      files = some files;
      metrics = no_metrics;
      pipeline = no_pipeline;
      stream = record stream { seen = seen; sequence = suc stream.sequence };
      sent = sent;
      unread = unread;
    }

unfoldable pub accept_stream_end :
    ScanStream
    → Text
    → ℕ
    → ℕ
    → StoreMetrics
    → ScanStreamMetrics
    → List ScanMessage
    → List Event
    → Result ScanError Pulled
accept_stream_end stream scan_id last_sequence total_entries metrics pipeline sent unread = do
  ensure
      (text_eq scan_id stream.scan_id
        && (last_sequence == stream.sequence)
        && (total_entries == length stream.seen))
      misaligned_stream_end
  ensure (length stream.seen == length (only_files stream.namespace)) incomplete_stream
  ok record {
    files = none;
    metrics = metrics;
    pipeline = pipeline;
    stream = record stream { ended = true };
    sent = sent;
    unread = unread;
  }

-- A control that answers with some Shares has them sent, once; what still comes of the scan is then dropped.
module _ (lower : Text → Text) where
  unfoldable pub pull : ScanStream → Bool → List ScanMessage → List Event → Result ScanError Pulled
  unfolding accept_hash_chunk accept_stream_end
  pull stream preempted sent [] = err closed
  pull stream preempted sent (broken e ∷ events) = err (from_wire e)
  pull stream preempted sent (silent ∷ events) = err timed_out
  pull stream false sent (blocked (some (share ∷ shares)) ∷ events) =
      pull stream true (sent ++ (audit_preempt (share ∷ shares) ∷ [])) events
  pull stream preempted sent (blocked answer ∷ events) = pull stream preempted sent events
  pull stream false sent (frame (hash_chunk scan_id sequence files) ∷ events) =
      accept_hash_chunk lower stream scan_id sequence files sent events
  pull stream true sent (frame (hash_chunk scan_id sequence files) ∷ events) =
      pull stream true sent events
  pull stream false sent (frame (hash_stream_end scan_id last total metrics pipeline) ∷ events) =
      accept_stream_end stream scan_id last total metrics pipeline sent events
  pull stream true sent (frame (hash_stream_end scan_id last total metrics pipeline) ∷ events) =
      pull stream true sent events
  pull stream preempted sent (frame scan_alive ∷ events) = pull stream preempted sent events
  pull stream preempted sent (frame scan_deferred ∷ events) = err scan_was_deferred
  pull stream preempted sent (frame _ ∷ events) = err unexpected_hash_frame

  unfoldable pub next_with_control : ScanStream → List Event → Result ScanError Pulled
  unfolding pull
  next_with_control stream events =
      ensure (not stream.ended) already_ended
      >> pull stream false (hash_next stream.scan_id stream.sequence ∷ []) events
