-- ===== src/Scan/Names.antt =====
-- `ScanStream::receive_namespace` of crates/rowd-core/src/protocol.rs. `digest` is the digest of a namespace, not of this
-- repository.
use rowd.Base.{
  ℕ, suc, ◌*◌, Text, lookup, insert, text_eq, false, ◌&&◌, ◌==◌, leb, List, [], ◌∷◌, length, Result,
  ok, err, ensure, ◌>>◌, ◌>>=◌,
}
use rowd.Model.{max_files}
use rowd.Model.Namespaces.{Namespace, validate_namespace}
use rowd.Paths.{validate_hash, utf8_len}
use rowd.Scan.Messages.{
  ScanError, Event, ScanStream, on_scan, on_id, is_absent, fits_chunk, scan_stream_begin,
  namespace_chunk, namespace_end, scan_alive, scan_deferred, closed, timed_out, scan_was_deferred,
  expected_stream_begin, invalid_binding, misaligned_namespace_chunk, invalid_namespace_chunk_size,
  duplicate_namespace_path, too_many_namespace_entries, misaligned_namespace_end, digest_mismatch,
  unexpected_namespace_frame, from_wire, frame, broken, blocked, silent,
}

-- The first frame that is not a sign of life.
unfoldable pub receive_begin : List Event → Result ScanError ((Text × Text) × List Event)
receive_begin [] = err closed
receive_begin (frame scan_alive ∷ events) = receive_begin events
receive_begin (frame scan_deferred ∷ events) = err scan_was_deferred
receive_begin (frame (scan_stream_begin scan_id binding) ∷ events) = ok ((scan_id, binding), events)
receive_begin (broken e ∷ events) = err (from_wire e)
receive_begin (blocked answer ∷ events) = err timed_out
receive_begin (silent ∷ events) = err timed_out
receive_begin (frame _ ∷ events) = err expected_stream_begin

unfoldable pub open_stream : Text → Text → Result ScanError ScanStream
open_stream scan_id binding = do
  on_id (validate_hash scan_id)
  ensure (leb (utf8_len binding) 65536) invalid_binding
  ok record {
    scan_id = scan_id;
    binding = binding;
    namespace = [];
    sequence = 0;
    seen = [];
    ended = false;
  }

unfoldable pub add_entries : Namespace → Namespace → Result ScanError Namespace
add_entries namespace [] = ok namespace
add_entries namespace ((path, entry) ∷ entries) =
    ensure (is_absent (lookup path namespace)) duplicate_namespace_path
    >> add_entries (insert path entry namespace) entries

unfoldable pub accept_namespace_chunk :
    ScanStream → Text → ℕ → Namespace → Result ScanError ScanStream
unfolding add_entries
accept_namespace_chunk stream scan_id sequence entries = do
  ensure (text_eq scan_id stream.scan_id && (sequence == stream.sequence))
      misaligned_namespace_chunk
  ensure (fits_chunk entries) invalid_namespace_chunk_size
  namespace ← add_entries stream.namespace entries
  ensure (leb (length namespace) (max_files * 2)) too_many_namespace_entries
  ok (record stream { namespace = namespace; sequence = suc stream.sequence })

module _ (lower : Text → Text) (digest : Namespace → Text) where
  unfoldable pub accept_namespace_end :
      ScanStream → Text → ℕ → ℕ → Text → Result ScanError ScanStream
  accept_namespace_end stream scan_id last_sequence total_entries namespace_digest = do
    ensure
        (text_eq scan_id stream.scan_id
          && (last_sequence == stream.sequence)
          && (total_entries == length stream.namespace))
        misaligned_namespace_end
    ensure (text_eq namespace_digest (digest stream.namespace)) digest_mismatch
    on_scan (validate_namespace lower stream.namespace)
    ok (record stream { sequence = 0 })

  unfoldable pub receive_entries :
      ScanStream → List Event → Result ScanError (ScanStream × List Event)
  unfolding accept_namespace_chunk accept_namespace_end
  receive_entries stream [] = err closed
  receive_entries stream (frame (namespace_chunk scan_id sequence entries) ∷ events) =
      accept_namespace_chunk stream scan_id sequence entries >>= λ next. receive_entries next events
  receive_entries stream (frame (namespace_end scan_id last_sequence total_entries d) ∷ events) =
      accept_namespace_end stream scan_id last_sequence total_entries d >>= λ next.
      ok (next, events)
  receive_entries stream (frame scan_alive ∷ events) = receive_entries stream events
  receive_entries stream (frame scan_deferred ∷ events) = err scan_was_deferred
  receive_entries stream (broken e ∷ events) = err (from_wire e)
  receive_entries stream (blocked answer ∷ events) = err timed_out
  receive_entries stream (silent ∷ events) = err timed_out
  receive_entries stream (frame _ ∷ events) = err unexpected_namespace_frame

  unfoldable pub receive_namespace : List Event → Result ScanError (ScanStream × List Event)
  unfolding receive_begin open_stream receive_entries
  receive_namespace events = receive_begin events >>= λ ((scan_id, binding), rest).
      open_stream scan_id binding >>= λ stream. receive_entries stream rest
