-- ===== src/Responder/Steps.antt =====
-- The loop of `respond_share` in crates/rowd-core/src/sync.rs: one message after another until the round is over.
-- The bytes of a body that is sent and errors of the connection itself are left out.
use rowd.Base.{
  ℕ, suc, ◌-◌, Text, Option, none, some, Bool, true, false, not, ◌&&◌, ◌||◌, ◌==◌, leb, ltb, List,
  [], ◌∷◌, ◌++◌, map, length, all, Result, ok, err, ensure, if◌then◌else◌,
}
use rowd.Model.{Entry, Manifest, max_file, opt_eq}
use rowd.Model.Manifests.{validate_manifest}
use rowd.Model.Namespaces.{Namespace}
use rowd.Paths.{validate_path, validate_hash}
use rowd.Responder.{
  IncomingPut, ReceivedStage, Responder, expected_barrier, unexpected_liveness, invalid_ack,
  hash_running, window_exceeded, source_too_large, install_forbidden, early_done,
  unexpected_message, closed, Store, Outside, Report, Turn, Act, pure, check, gets, modify, ◌>>=◌,
  ◌>>◌, on_store, or_deferred, continues, ends_with, defer_round,
}
use rowd.Responder.Checks.{on_path, on_files}
use rowd.Responder.Scans.{
  pass_gate, on_scan, on_stage_hint, on_release, on_begin, on_hash_next, on_preempt,
}
use rowd.Responder.Stages.{on_stage_put, on_install}
use rowd.Round.{manifest_chunk_files, max_in_flight_files}
use rowd.Scan.{
  ScanMessage, scan, ack_batch, hash_stream_begin, hash_stage_hint, hash_release, hash_next,
  stage_put, install_staged, audit_preempt, get, legacy_hash, legacy_hash_result, blob, put,
  delta_scan, delta_manifest, need_full_scan, done, scan_alive, scan_ready, scan_deferred, accept,
  is_absent, is_empty,
}
use rowd.Wire.{StoreMetrics}

-- While Gets are refused only further Gets and a preemption are expected.
abbrev pub passes_barrier : ScanMessage → Bool
passes_barrier (get path entry) = true
passes_barrier (audit_preempt shares) = true
passes_barrier _ = false

abbrev pub is_ok : {E : Type 0} → Result E (Unit {0}) → Bool
is_ok (ok u) = true
is_ok (err e) = false

unfoldable pub delta_metrics : StoreMetrics → StoreMetrics → StoreMetrics
delta_metrics before later = record {
  files_enumerated = later.files_enumerated - before.files_enumerated;
  files_hashed = later.files_hashed - before.files_hashed;
  bytes_hashed = later.bytes_hashed - before.bytes_hashed;
  staging_copies = 0;
  full_scans = 0;
}

module _ {S : Type 0} (store : Store S) where
  unfoldable pub acknowledge_all : Manifest → Act S (Unit {0})
  acknowledge_all [] = pure tt
  acknowledge_all ((path, entry) ∷ entries) =
      on_store (store.acknowledge path entry) >> acknowledge_all entries

  unfoldable pub answer_delta :
      Responder → StoreMetrics → Option (List Text × Manifest) → Act S Turn
  answer_delta r before none = pure (continues r (scan_ready ∷ need_full_scan ∷ []))
  answer_delta r before (some (paths, files)) = do
    later ← gets store.metrics
    pure (continues r (scan_ready ∷ delta_manifest paths files (delta_metrics before later) ∷ []))

  unfoldable pub on_delta : Responder → Outside → Text → List Text → Act S Turn
  on_delta r outside base_token paths = do
    old ← gets store.base_token
    before ← gets store.metrics
    let offer : Option (List Text × Manifest) → Act S Turn =
        λ candidate. pass_gate store r outside.gate (answer_delta r before candidate)
    if opt_eq old (some base_token)
          && leb (length paths) 1024
          && all (λ p. is_ok (validate_path p)) paths
        then or_deferred (store.delta_scan paths) offer (defer_round store r [])
        else offer none

  unfoldable pub on_legacy_hash : Responder → Text → Entry → Act S Turn
  on_legacy_hash r path entry = do
    check (ensure (is_absent r.stream) hash_running)
    check (on_path (validate_path path))
    check (on_path (validate_hash entry.hash))
    check (ensure (leb entry.size max_file) source_too_large)
    hash ← on_store (store.legacy_hash path entry)
    pure (continues r (legacy_hash_result hash ∷ []))

  -- The first refusal drops the scan; the window's other Gets are refused after it.
  unfoldable pub serve_get : Responder → Text → Entry → Act S Turn
  serve_get r path entry =
      or_deferred (store.snapshot path entry) (λ content. pure (continues r (blob entry ∷ [])))
        (on_store store.discard_scan
          >> pure (continues (record r { deferred_gets = 1 }) (scan_deferred ∷ [])))

  unfoldable pub refuse_get : Responder → Act S Turn
  refuse_get r =
      check (ensure (ltb r.deferred_gets max_in_flight_files) window_exceeded)
      >> pure (continues (record r { deferred_gets = suc r.deferred_gets }) (scan_deferred ∷ []))

  unfoldable pub on_get : Responder → Text → Entry → Act S Turn
  on_get r path entry = do
    check (on_path (validate_path path))
    check (on_path (validate_hash entry.hash))
    check (ensure (leb entry.size max_file) source_too_large)
    if ltb 0 r.deferred_gets then refuse_get r else serve_get r path entry

  unfoldable pub on_put : Responder → IncomingPut → Act S Turn
  on_put r job = do
    check (ensure (is_absent r.stream) install_forbidden)
    paths ← on_store (store.receive_put_batch job)
    pure (continues r (map (λ p. accept) paths))

  unfoldable pub on_done : Responder → ℕ → ℕ → Text → Act S Turn
  on_done r transferred conflicts base_token = do
    check (ensure (is_absent r.stream && is_empty r.incoming_stages) early_done)
    check (on_path (validate_hash base_token))
    on_store store.discard_scan
    modify (store.set_base_token (some base_token))
    pure (
        ends_with r []
          (record { round_deferred = false; transferred = transferred; conflicts = conflicts }))

-- What was sent, staged and installed in a round, and its report.
pub record Ended : Type 0 where
  pub sent : List ScanMessage
  pub report : Report
  pub staged : List ReceivedStage
  pub installed : List ReceivedStage

abbrev pub joins : Turn → Ended → Ended
joins t e = record {
  sent = t.sent ++ e.sent;
  report = e.report;
  staged = t.staged ++ e.staged;
  installed = t.installed ++ e.installed;
}

module _ (lower : Text → Text) (digest : Namespace → Text) (blake3 : List ℕ → Text) {S : Type 0}
    (store : Store S) where
  unfoldable pub on_ack : Responder → Manifest → Act S Turn
  on_ack r entries = do
    check (ensure (not (is_empty entries) && leb (length entries) manifest_chunk_files) invalid_ack)
    check (on_files (validate_manifest lower entries))
    acknowledge_all store entries
    pure (continues r [])

  unfoldable pub dispatch : Responder → Outside → ScanMessage → Act S Turn
  dispatch r outside (ack_batch entries) = on_ack r entries
  dispatch r outside scan = on_scan lower digest store r outside
  dispatch r outside (hash_stage_hint scan_id paths) =
      on_stage_hint lower digest store r scan_id paths
  dispatch r outside (hash_release scan_id paths) = on_release lower digest store r scan_id paths
  dispatch r outside (hash_stream_begin scan_id binding) =
      on_begin lower digest store r scan_id binding
  dispatch r outside (stage_put scan_id sequence path entry expected) =
      on_stage_put blake3 store r outside scan_id sequence
        (record { path = path; entry = entry; expected = expected })
  dispatch r outside (install_staged scan_id sequence) = on_install blake3 store r scan_id sequence
  dispatch r outside (hash_next scan_id sequence) =
      on_hash_next lower digest store r scan_id sequence
  dispatch r outside (audit_preempt shares) = on_preempt lower digest store r shares
  dispatch r outside (delta_scan base_token paths) = on_delta store r outside base_token paths
  dispatch r outside scan_alive =
      check (ensure (is_absent r.stream) unexpected_liveness) >> pure (continues r [])
  dispatch r outside (legacy_hash path entry) = on_legacy_hash store r path entry
  dispatch r outside (get path entry) = on_get store r path entry
  dispatch r outside (put path entry expected) =
      on_put store r (record { path = path; entry = entry; expected = expected })
  dispatch r outside (done transferred conflicts base_token) =
      on_done store r transferred conflicts base_token
  dispatch r outside _ = check (err unexpected_message)

  unfoldable pub handle : Responder → Outside → ScanMessage → Act S Turn
  handle r outside message =
      check (ensure (r.deferred_gets == 0 || passes_barrier message) expected_barrier)
      >> dispatch r outside message

  -- The loop ends with the first report.
  abbrev pub ends_or : Turn → Option Report → Act S Ended → Act S Ended
  ends_or t none rest = rest >>= λ e. pure (joins t e)
  ends_or t (some report) rest =
      pure (record { sent = t.sent; report = report; staged = t.staged; installed = t.installed })

  unfoldable pub respond : Responder → List (ScanMessage × Outside) → Act S Ended
  respond r [] = check (err closed)
  respond r ((message, outside) ∷ messages) =
      handle r outside message >>= λ t. ends_or t t.report (respond t.responder messages)
