-- ===== src/Responder/Scans.antt =====
-- The messages of a scan as `respond_share` of crates/rowd-core/src/sync.rs answers them.
use rowd.Base.{
  ℕ, suc, Text, text_eq, Option, none, some, true, false, not, ◌&&◌, ◌||◌, ◌==◌, leb, ltb, List, [],
  ◌∷◌, length, all, has, err, ensure, or_err, if◌then◌else◌,
}
use rowd.Model.{Manifest}
use rowd.Model.Manifests.{validate_manifest}
use rowd.Model.Namespaces.{Namespace, only_files, manifest_namespace, validate_namespace}
use rowd.Responder.{
  ResponderStream, Responder, scan_active, unexpected_gate, no_namespace, invalid_hint,
  invalid_release, stale_begin, misaligned_request, invalid_produced_chunk, incomplete_or_stale,
  preempt_outside, Store, Outside, Turn, Act, pure, check, gets, modify, ◌>>=◌, ◌>>◌, on_store,
  or_deferred, continues, defer_round,
}
use rowd.Responder.Checks.{
  on_files, validate_ids, send_namespace, add_hints, take_cached, check_produced, scan_metrics,
}
use rowd.Scan.{
  ScanMessage, hash_chunk, hash_stream_end, audit_preempt, scan_ready, scan_continue,
  scan_stream_chunk_files, is_absent, is_empty, fits_chunk,
}
use rowd.Wire.{StoreMetrics}

module _ {S : Type 0} (store : Store S) where
  -- The frame at the gate: go on, or put the round off.
  unfoldable pub pass_gate : Responder → ScanMessage → Act S Turn → Act S Turn
  pass_gate r scan_continue go = go
  pass_gate r (audit_preempt shares) go =
      check (validate_ids shares) >> defer_round store r (scan_ready ∷ [])
  pass_gate r _ go = check (err unexpected_gate)

-- `lower` is `str::to_lowercase`, `digest` the digest of a namespace; the store is any.
module _ (lower : Text → Text) (digest : Namespace → Text) {S : Type 0} (store : Store S) where
  unfoldable pub offer_namespace :
      Responder → Outside → StoreMetrics → Text → Namespace → Option Manifest → Act S Turn
  offer_namespace r outside before binding namespace files =
      check (on_files (validate_namespace lower namespace))
      >> pass_gate store r outside.gate (
          pure (
            continues
              (record r {
                stream = some record {
                  scan_id = outside.random_id;
                  binding = binding;
                  namespace = namespace;
                  cached = files;
                  sequence = 0;
                  seen = [];
                  hints = [];
                  hashing = false;
                  hash_deferred = false;
                  before = before;
                };
              })
              (scan_ready ∷ send_namespace digest outside.random_id binding namespace)))

  -- A namespace that streams, or else a manifest that is scanned at once.
  abbrev pub scanned : Responder → (Namespace → Option Manifest → Act S Turn) → Act S Turn
  scanned r offer =
      or_deferred store.scan_with_control (λ files. offer (manifest_namespace files) (some files))
        (defer_round store r [])

  abbrev pub streamed :
      Responder → (Namespace → Option Manifest → Act S Turn) → Option Namespace → Act S Turn
  streamed r offer (some namespace) = offer namespace none
  streamed r offer none = scanned r offer

  unfoldable pub scan_names : Responder → (Namespace → Option Manifest → Act S Turn) → Act S Turn
  scan_names r offer =
      or_deferred store.stream_namespace (streamed r offer) (defer_round store r [])

  abbrev pub rescanned : Responder → Responder
  rescanned r = record r {
    stream_completed = false;
    completed_scan = none;
    stage_sequence = 0;
    install_sequence = 0;
  }

  unfoldable pub on_scan : Responder → Outside → Act S Turn
  on_scan r outside = do
    check (ensure (is_absent r.stream && is_empty r.incoming_stages) scan_active)
    before ← gets store.metrics
    binding ← on_store store.scan_binding
    scan_names (rescanned r) (offer_namespace (rescanned r) outside before binding)

  unfoldable pub on_stage_hint : Responder → Text → List Text → Act S Turn
  on_stage_hint r scan_id paths = do
    current ← check (or_err r.stream no_namespace)
    check (
        ensure
          (not current.hashing
            && text_eq scan_id current.scan_id
            && leb (length paths) scan_stream_chunk_files)
          invalid_hint)
    hints ← check (add_hints current.namespace current.hints paths)
    pure (continues (record r { stream = some (record current { hints = hints }) }) [])

  unfoldable pub on_release : Responder → Text → List Text → Act S Turn
  on_release r scan_id paths = do
    current ← check (or_err r.stream no_namespace)
    check (
        ensure
          (current.hashing
            && text_eq scan_id current.scan_id
            && leb (length paths) scan_stream_chunk_files
            && all (λ p. has current.seen p) paths)
          invalid_release)
    on_store (store.release_hash_staging paths)
    pure (continues r [])

  unfoldable pub on_begin : Responder → Text → Text → Act S Turn
  on_begin r scan_id binding = do
    current ← check (or_err r.stream no_namespace)
    check (
        ensure
          (not current.hashing
            && text_eq scan_id current.scan_id
            && text_eq binding current.binding)
          stale_begin)
    now ← on_store store.scan_binding
    check (ensure (text_eq now binding) stale_begin)
    or_deferred (store.start_hash_stream current.hints)
        (λ _. pure (continues (record r { stream = some (record current { hashing = true }) }) []))
        (pure (
          continues
            (record r { stream = some (record current { hash_deferred = true; hashing = true }) })
            []))

  unfoldable pub answer_chunk : Responder → ResponderStream → Manifest → Act S Turn
  answer_chunk r current files = do
    check (on_files (validate_manifest lower files))
    check (ensure (fits_chunk files) invalid_produced_chunk)
    seen ← check (check_produced current.namespace current.seen files)
    pure (
        continues
          (record r {
            stream = some (record current { seen = seen; sequence = suc current.sequence });
          })
          (hash_chunk current.scan_id current.sequence files ∷ []))

  unfoldable pub answer_end : Responder → ResponderStream → Act S Turn
  answer_end r current = do
    check
        (ensure (length current.seen == length (only_files current.namespace)) incomplete_or_stale)
    now ← on_store store.scan_binding
    check (ensure (text_eq now current.binding) incomplete_or_stale)
    on_store store.commit_scan
    modify (store.set_base_token none)
    later ← gets store.metrics
    pipeline ← on_store store.scan_stream_metrics
    pure (
        continues
          (record r {
            stream = none;
            stream_completed = true;
            completed_scan = some (current.scan_id, current.binding);
          })
          (hash_stream_end current.scan_id current.sequence (length current.seen)
              (scan_metrics current.before later) pipeline
            ∷ []))

  abbrev pub answer : Responder → ResponderStream → Option Manifest → Act S Turn
  answer r current none = answer_end r current
  answer r current (some files) = answer_chunk r current files

  -- From the manifest that was scanned at once, or from the store.
  unfoldable pub produce : Responder → ResponderStream → Option Manifest → Act S Turn
  produce r current (some files) =
      let (chunk, rest) = take_cached files in
      answer r (record current { cached = some rest }) chunk
  produce r current none =
      or_deferred store.next_hash_chunk (answer r current) (defer_round store r [])

  unfoldable pub on_hash_next : Responder → Text → ℕ → Act S Turn
  on_hash_next r scan_id sequence = do
    current ← check (or_err r.stream no_namespace)
    check (
        ensure
          (current.hashing && text_eq scan_id current.scan_id && (sequence == current.sequence))
          misaligned_request)
    if current.hash_deferred then defer_round store r [] else produce r current current.cached

  unfoldable pub on_preempt : Responder → List Text → Act S Turn
  on_preempt r shares = do
    check (
        ensure (not (is_absent r.stream) || r.stream_completed || ltb 0 r.deferred_gets)
          preempt_outside)
    check (validate_ids shares)
    defer_round store r []
