-- ===== src/Examples/Responses.antt =====
-- A round of the phone in crates/rowd-core/src/sync.rs that stages one file and installs it.
use rowd.Base.{
  ℕ, ◌+◌, Text, codes, none, some, true, false, List, [], ◌∷◌, ◌++◌, length, Result, ok, err, ◌≡◌,
  refl, lookup, text_eq, insert, text_lt, has, All,
}
use rowd.Examples.Rounds.{hash, file}
use rowd.Examples.Scans.{lower, digest}
use rowd.Model.{Entry, Manifest}
use rowd.Model.Manifests.{validate_manifest}
use rowd.Model.Namespaces.{only_files, ends, validate_namespace, manifest_namespace}
use rowd.Paths.{validate_path, validate_hash}
use rowd.Responder.{
  ResponderStream, Responder, ReceivedStage, RespondError, Store, Outside, Turn, initial, continues,
  ◌>>=◌, on_store, or_deferred,
}
use rowd.Responder.Checks
use rowd.Responder.Scans
use rowd.Responder.Stages
use rowd.Responder.Steps
use rowd.Responder.Order.{Reach, began, answered, Reach-IsSound, respond-installs}
use rowd.Responder.Staging.{IsSound, Verified}
use rowd.Responder.Steps.{Ended, handle, respond}
use rowd.Scan.Lockstep.{InStep, Takes, on_hash_next_taken}
use rowd.Scan.{
  ScanStream, ScanMessage, scan, scan_continue, hash_stream_begin, stage_put, hash_next,
  install_staged, done, no_metrics, no_pipeline,
}

-- A digest that tells the length of a body.
abbrev blake3 : List ℕ → Text
blake3 body = hash (b'0' + length body)

abbrev entry : Entry
entry = record { hash = hash b'2'; size = 2 }

abbrev files : Manifest
files = (codes "a", file b'1') ∷ []

-- A store with one file that counts what it installs.
abbrev store : Store ℕ
store = record {
  scan_binding = λ s. (ok (codes "root"), s);
  stream_namespace = λ s. (ok none, s);
  scan_with_control = λ s. (ok files, s);
  start_hash_stream = λ paths s. (ok tt, s);
  next_hash_chunk = λ s. (ok none, s);
  release_hash_staging = λ paths s. (ok tt, s);
  commit_scan = λ s. (ok tt, s);
  discard_scan = λ s. (ok tt, s);
  scan_stream_metrics = λ s. (ok no_pipeline, s);
  metrics = λ s. no_metrics;
  base_token = λ s. none;
  set_base_token = λ token s. s;
  acknowledge = λ path e s. (ok tt, s);
  excluded = λ s path. false;
  snapshot = λ path e s. (ok [], s);
  legacy_hash = λ path e s. (ok [], s);
  delta_scan = λ paths s. (ok none, s);
  install_received = λ path expected e body s. (ok tt, s + 1);
  receive_put_batch = λ job s. (ok [], s);
}

abbrev outside : Outside
outside = record { gate = scan_continue; body = 8 ∷ 9 ∷ []; random_id = hash b'5' }

abbrev messages : List (ScanMessage × Outside)
messages =
    (scan, outside)
    ∷ (hash_stream_begin (hash b'5') (codes "root"), outside)
    ∷ (stage_put (hash b'5') 0 (codes "n") entry none, outside)
    ∷ (hash_next (hash b'5') 0, outside)
    ∷ (hash_next (hash b'5') 1, outside)
    ∷ (install_staged (hash b'5') 0, outside)
    ∷ (done 1 0 (hash b'6'), outside)
    ∷ []

abbrev or_ended : Result RespondError Ended → Ended
or_ended (ok e) = e
or_ended (err e) = record {
  sent = [];
  report = record { round_deferred = true; transferred = 0; conflicts = 0 };
  staged = [];
  installed = [];
}

abbrev ended : Ended
ended = or_ended (respond lower digest blake3 store initial messages 0).0

ran : respond lower digest blake3 store initial messages 0 ≡ (ok ended, 1)
unfolding respond ◌>>=◌ handle Steps.dispatch Scans.on_scan on_store Scans.scan_names or_deferred
    Scans.offer_namespace validate_namespace manifest_namespace validate_path lookup Scans.pass_gate
    Scans.on_begin Stages.on_stage_put validate_hash Checks.receive_blob insert has text_eq text_lt
    validate_manifest ends only_files Checks.check_produced Checks.scan_metrics
    Checks.send_namespace Checks.take_cached Scans.answer_chunk Scans.answer_end Scans.on_hash_next
    Scans.produce Stages.drop_stage Stages.insert_stage Stages.keep_stage Stages.on_install
    Stages.remove_stage Steps.on_done
ran = refl

respond-installs_example :
    All (Verified blake3) ended.installed
    × (left : List ReceivedStage) × (ended.staged ≡ ended.installed ++ left)
    × (ended.report.round_deferred ≡ false → left ≡ [])
respond-installs_example = respond-installs lower digest blake3 ℕ store messages 0 1 ended ran

abbrev or_turn : Result RespondError Turn → Turn
or_turn (ok t) = t
or_turn (err e) = continues initial []

abbrev first : Turn
first = or_turn (handle lower digest blake3 store initial outside scan 0).0

abbrev second : Turn
second =
    or_turn
      (handle lower digest blake3 store first.responder outside
        (hash_stream_begin (hash b'5') (codes "root")) 0).0

abbrev third : Turn
third =
    or_turn
      (handle lower digest blake3 store second.responder outside
        (stage_put (hash b'5') 0 (codes "n") entry none) 0).0

reached : Reach lower digest blake3 store third.responder
unfolding ◌>>=◌ handle Steps.dispatch Scans.on_scan on_store Scans.scan_names or_deferred
    Scans.offer_namespace validate_namespace manifest_namespace validate_path lookup Scans.pass_gate
    Scans.on_begin Stages.on_stage_put validate_hash Checks.receive_blob insert has text_eq text_lt
    validate_manifest ends only_files Checks.check_produced Checks.scan_metrics
    Checks.send_namespace Checks.take_cached Scans.answer_chunk Scans.answer_end Scans.on_hash_next
    Scans.produce Stages.drop_stage Stages.insert_stage Stages.keep_stage Stages.on_install
    Stages.remove_stage Steps.on_done
reached =
    answered
      (answered (answered began outside scan 0 0 first refl) outside
        (hash_stream_begin (hash b'5') (codes "root")) 0 0 second refl)
      outside (stage_put (hash b'5') 0 (codes "n") entry none) 0 0 third refl

Reach-IsSound_example : IsSound blake3 third.responder
Reach-IsSound_example = Reach-IsSound lower digest blake3 ℕ store third.responder reached

-- One file is held, of two bytes.
two_bytes : third.responder.incoming_bytes ≡ 2
unfolding ◌>>=◌ handle Steps.dispatch Scans.on_scan on_store Scans.scan_names or_deferred
    Scans.offer_namespace validate_namespace manifest_namespace validate_path lookup Scans.pass_gate
    Scans.on_begin Stages.on_stage_put validate_hash Checks.receive_blob insert has text_eq text_lt
    validate_manifest ends only_files Checks.check_produced Checks.scan_metrics
    Checks.send_namespace Checks.take_cached Scans.answer_chunk Scans.answer_end Scans.on_hash_next
    Scans.produce Stages.drop_stage Stages.insert_stage Stages.keep_stage Stages.on_install
    Stages.remove_stage Steps.on_done
two_bytes = refl

-- The PC's end of that scan, and what the phone answers its first call.
abbrev pc_stream : ScanStream
pc_stream = record {
  scan_id = hash b'5';
  binding = codes "root";
  namespace = (codes "a", record { size = 10; modified = 0; directory = false }) ∷ [];
  sequence = 0;
  seen = [];
  ended = false;
}

abbrev phone_stream : ResponderStream
phone_stream = record {
  scan_id = hash b'5';
  binding = codes "root";
  namespace = (codes "a", record { size = 10; modified = 0; directory = false }) ∷ [];
  cached = some files;
  sequence = 0;
  seen = [];
  hints = [];
  hashing = true;
  hash_deferred = false;
  before = no_metrics;
}

abbrev hashing : Responder
hashing = record initial { stream = some phone_stream }

abbrev answered_call : Turn
answered_call =
    or_turn (Scans.on_hash_next lower digest store hashing pc_stream.scan_id pc_stream.sequence 0).0

answers :
    Scans.on_hash_next lower digest store hashing pc_stream.scan_id pc_stream.sequence 0
    ≡ (ok answered_call, 0)
unfolding ◌>>=◌ handle Steps.dispatch Scans.on_scan on_store Scans.scan_names or_deferred
    Scans.offer_namespace validate_namespace manifest_namespace validate_path lookup Scans.pass_gate
    Scans.on_begin Stages.on_stage_put validate_hash Checks.receive_blob insert has text_eq text_lt
    validate_manifest ends only_files Checks.check_produced Checks.scan_metrics
    Checks.send_namespace Checks.take_cached Scans.answer_chunk Scans.answer_end Scans.on_hash_next
    Scans.produce Stages.drop_stage Stages.insert_stage Stages.keep_stage Stages.on_install
    Stages.remove_stage Steps.on_done
answers = refl

goes_on : answered_call.report ≡ none
unfolding ◌>>=◌ handle Steps.dispatch Scans.on_scan on_store Scans.scan_names or_deferred
    Scans.offer_namespace validate_namespace manifest_namespace validate_path lookup Scans.pass_gate
    Scans.on_begin Stages.on_stage_put validate_hash Checks.receive_blob insert has text_eq text_lt
    validate_manifest ends only_files Checks.check_produced Checks.scan_metrics
    Checks.send_namespace Checks.take_cached Scans.answer_chunk Scans.answer_end Scans.on_hash_next
    Scans.produce Stages.drop_stage Stages.insert_stage Stages.keep_stage Stages.on_install
    Stages.remove_stage Steps.on_done
goes_on = refl

in_step : InStep phone_stream pc_stream
in_step = record {
  scan_id = refl;
  namespace = refl;
  sequence = refl;
  seen = refl;
  open_still = refl;
}

on_hash_next_taken_example : Takes lower pc_stream answered_call []
on_hash_next_taken_example =
    on_hash_next_taken lower digest ℕ store hashing pc_stream phone_stream 0 0 answered_call [] refl
      in_step answers goes_on
