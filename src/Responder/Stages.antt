-- ===== src/Responder/Stages.antt =====
-- Files that `respond_share` of crates/rowd-core/src/sync.rs keeps privately until the scan is committed.
use rowd.Base.{
  ℕ, suc, ◌+◌, ◌-◌, Text, lookup, text_eq, Option, none, some, Bool, not, ◌&&◌, ◌==◌, leb, ltb,
  List, [], ◌∷◌, length, any, has, Result, ok, ensure, or_err, if◌then◌else◌,
}
use rowd.Paths.{PathError, validate_path, validate_hash}
use rowd.Responder.{
  IncomingPut, ReceivedStage, ResponderStream, Responder, no_namespace, misaligned_stage,
  stale_target, ignored_path, staging_limit, duplicate_stage, not_reconciled, early_install,
  missing_stage, Store, Outside, Turn, Act, pure, check, gets, ◌>>=◌, ◌>>◌, on_store,
}
use rowd.Responder.Checks.{on_path, receive_blob}
use rowd.Round.{max_in_flight_files, max_staged_bytes, saturating_add}
use rowd.Scan.{stage_received, accept, is_absent}

-- `BTreeMap<u64, ReceivedStage>`, in the order of the keys
unfoldable pub insert_stage {ℓ} : {V : Type ℓ} → ℕ → V → List (ℕ × V) → List (ℕ × V)
insert_stage k v [] = (k, v) ∷ []
insert_stage k v ((j, w) ∷ m) =
    let rest = insert_stage k v m in
    if k == j then (k, v) ∷ m else if ltb k j then (k, v) ∷ (j, w) ∷ m else (j, w) ∷ rest

abbrev kept_entry {ℓ} : {V : Type ℓ} → ℕ × V → Option (V × List (ℕ × V)) → Option (V × List (ℕ × V))
kept_entry x none = none
kept_entry x (some (v, m)) = some (v, x ∷ m)

-- The value at a key, and the map without it.
unfoldable pub remove_stage {ℓ} : {V : Type ℓ} → ℕ → List (ℕ × V) → Option (V × List (ℕ × V))
remove_stage k [] = none
remove_stage k ((j, w) ∷ m) =
    let rest = remove_stage k m in if k == j then some (w, m) else kept_entry (j, w) rest

abbrev pub validate_expected : Option Text → Result PathError (Unit {0})
validate_expected none = ok tt
validate_expected (some hash) = validate_hash hash

-- `if namespace.contains_key(path) { expected.is_some() && seen.contains(path) } else { expected.is_none() }`
abbrev pub reconciled : ResponderStream → Text → Option Text → Bool
reconciled current path expected =
    if is_absent (lookup path current.namespace)
    then is_absent expected
    else not (is_absent expected) && has current.seen path

abbrev pub stages_path : Text → List (ℕ × ReceivedStage) → Bool
stages_path path stages = any (λ (k, stage). text_eq stage.job.path path) stages

unfoldable pub keep_stage : Responder → Text → ℕ → ReceivedStage → Turn
keep_stage r scan_id sequence stage = record {
  responder = record r {
    incoming_bytes = r.incoming_bytes + stage.job.entry.size;
    incoming_stages = insert_stage sequence stage r.incoming_stages;
    stage_sequence = suc r.stage_sequence;
  };
  sent = stage_received scan_id sequence ∷ [];
  report = none;
  staged = stage ∷ [];
  installed = [];
}

unfoldable pub drop_stage : Responder → ReceivedStage → List (ℕ × ReceivedStage) → Turn
drop_stage r stage rest = record {
  responder = record r {
    incoming_bytes = r.incoming_bytes - stage.job.entry.size;
    incoming_stages = rest;
    install_sequence = suc r.install_sequence;
  };
  sent = accept ∷ [];
  report = none;
  staged = [];
  installed = stage ∷ [];
}

-- `blake3` is the digest of a body, not of this repository.
module _ (blake3 : List ℕ → Text) {S : Type 0} (store : Store S) where
  unfoldable pub on_stage_put : Responder → Outside → Text → ℕ → IncomingPut → Act S Turn
  on_stage_put r outside scan_id sequence job = do
    current ← check (or_err r.stream no_namespace)
    check (
        ensure
          (current.hashing && text_eq scan_id current.scan_id && (sequence == r.stage_sequence))
          misaligned_stage)
    binding ← on_store store.scan_binding
    check (ensure (text_eq binding current.binding) stale_target)
    check (on_path (validate_path job.path))
    check (on_path (validate_hash job.entry.hash))
    check (on_path (validate_expected job.expected))
    excluded ← gets (λ s. store.excluded s job.path)
    check (ensure (not excluded) ignored_path)
    check (
        ensure
          (ltb (length r.incoming_stages) max_in_flight_files
            && leb job.entry.size max_staged_bytes
            && leb (saturating_add r.incoming_bytes job.entry.size) max_staged_bytes)
          staging_limit)
    check (ensure (not (stages_path job.path r.incoming_stages)) duplicate_stage)
    check (ensure (reconciled current job.path job.expected) not_reconciled)
    body ← check (receive_blob blake3 job.entry outside.body)
    again ← on_store store.scan_binding
    check (ensure (text_eq again current.binding) stale_target)
    pure (keep_stage r scan_id sequence (record { job = job; staged = body }))

  unfoldable pub on_install : Responder → Text → ℕ → Act S Turn
  on_install r scan_id sequence = do
    check (
        ensure (is_absent r.stream && r.stream_completed && (sequence == r.install_sequence))
          early_install)
    (completed_id, binding) ← check (or_err r.completed_scan missing_stage)
    check (ensure (text_eq scan_id completed_id) stale_target)
    now ← on_store store.scan_binding
    check (ensure (text_eq now binding) stale_target)
    (stage, rest) ← check (or_err (remove_stage sequence r.incoming_stages) missing_stage)
    on_store (store.install_received stage.job.path stage.job.expected stage.job.entry stage.staged)
    pure (drop_stage r stage rest)
