-- ===== src/Responder.antt =====
-- The phone's side of a round: the state of `respond_share` in crates/rowd-core/src/sync.rs, and the trait `Store`
-- of crates/rowd-core/src/storage.rs that it works on.
pub mod Checks
pub mod Scans
pub mod Stages
pub mod Steps
pub mod Gives
pub mod Staging
pub mod Keeps
pub mod Handlers
pub mod Order
use rowd.Base.{
  ℕ, Text, Map, Option, none, some, Bool, true, false, List, [], ◌∷◌, ◌++◌, Result, ok, err,
}
use rowd.Model.{Entry, Manifest}
use rowd.Model.Manifests.{ManifestError}
use rowd.Model.Namespaces.{Namespace}
use rowd.Paths.{PathError}
use rowd.Scan.{ScanMessage, ScanStreamMetrics, scan_deferred}
use rowd.Wire.{StoreMetrics}

pub record IncomingPut : Type 0 where
  pub path : Text
  pub entry : Entry
  pub expected : Option Text

-- `staged` is the content of the private file.
pub record ReceivedStage : Type 0 where
  pub job : IncomingPut
  pub staged : List ℕ

pub record ResponderStream : Type 0 where
  pub scan_id : Text
  pub binding : Text
  pub namespace : Namespace
  pub cached : Option Manifest
  pub sequence : ℕ
  pub seen : List Text
  pub hints : List Text
  pub hashing : Bool
  pub hash_deferred : Bool
  pub before : StoreMetrics

pub record Responder : Type 0 where
  pub stream : Option ResponderStream
  pub stream_completed : Bool
  pub deferred_gets : ℕ
  pub completed_scan : Option (Text × Text)
  pub incoming_stages : List (ℕ × ReceivedStage)
  pub stage_sequence : ℕ
  pub install_sequence : ℕ
  pub incoming_bytes : ℕ

abbrev pub initial : Responder
initial = record {
  stream = none;
  stream_completed = false;
  deferred_gets = 0;
  completed_scan = none;
  incoming_stages = [];
  stage_sequence = 0;
  install_sequence = 0;
  incoming_bytes = 0;
}

-- An operation of the store that fails because other work comes first, or otherwise.
pub data StoreError : Type 0 where
  other_work : StoreError
  failed : Text → StoreError

pub data RespondError : Type 0 where
  from_store : StoreError → RespondError
  bad_path : PathError → RespondError
  bad_files : ManifestError → RespondError
  expected_barrier scan_active unexpected_gate no_namespace invalid_hint invalid_release :
      RespondError
  stale_begin misaligned_stage stale_target ignored_path staging_limit : RespondError
  duplicate_stage not_reconciled body_too_large truncated_body wrong_body : RespondError
  early_install missing_stage misaligned_request invalid_produced_chunk : RespondError
  namespace_mismatch incomplete_or_stale preempt_outside unexpected_liveness : RespondError
  invalid_ack hash_running window_exceeded source_too_large install_forbidden early_done :
      RespondError
  unexpected_message closed : RespondError

-- The trait's operations change the store of type S; `receive_put_batch` is that of the round.
pub record Store (S : Type 0) : Type 0 where
  pub scan_binding : S → Result StoreError Text × S
  pub stream_namespace : S → Result StoreError (Option Namespace) × S
  pub scan_with_control : S → Result StoreError Manifest × S
  pub start_hash_stream : List Text → S → Result StoreError (Unit {0}) × S
  pub next_hash_chunk : S → Result StoreError (Option Manifest) × S
  pub release_hash_staging : List Text → S → Result StoreError (Unit {0}) × S
  pub commit_scan : S → Result StoreError (Unit {0}) × S
  pub discard_scan : S → Result StoreError (Unit {0}) × S
  pub scan_stream_metrics : S → Result StoreError ScanStreamMetrics × S
  pub metrics : S → StoreMetrics
  pub base_token : S → Option Text
  pub set_base_token : Option Text → S → S
  pub acknowledge : Text → Entry → S → Result StoreError (Unit {0}) × S
  pub excluded : S → Text → Bool
  pub snapshot : Text → Entry → S → Result StoreError (List ℕ) × S
  pub legacy_hash : Text → Entry → S → Result StoreError Text × S
  pub delta_scan : List Text → S → Result StoreError (Option (List Text × Manifest)) × S
  pub install_received : Text → Option Text → Entry → List ℕ → S → Result StoreError (Unit {0}) × S
  pub receive_put_batch : IncomingPut → S → Result StoreError (List Text) × S

-- What comes from outside with a message: the frame after it, read at the gate of a scan; the bytes after it, read as the
-- body of a file; a fresh identity.
pub record Outside : Type 0 where
  pub gate : ScanMessage
  pub body : List ℕ
  pub random_id : Text

pub record Report : Type 0 where
  pub round_deferred : Bool
  pub transferred : ℕ
  pub conflicts : ℕ

-- One message later: the state, the frames sent, the report if the round is over, and the files that it staged and
-- those that `install_received` took.
pub record Turn : Type 0 where
  pub responder : Responder
  pub sent : List ScanMessage
  pub report : Option Report
  pub staged : List ReceivedStage
  pub installed : List ReceivedStage

-- A handler: it fails or gives a value, and changes the store either way.
abbrev pub Act {ℓ} : Type 0 → Type ℓ → Type ℓ
Act S A = S → Result RespondError A × S

module _ {S : Type 0} where
  abbrev pub pure {ℓ} : {A : Type ℓ} → A → Act S A
  pure a s = (ok a, s)

  -- A check of the message or of the state.
  abbrev pub check {ℓ} : {A : Type ℓ} → Result RespondError A → Act S A
  check r s = (r, s)

  abbrev pub gets {ℓ} : {A : Type ℓ} → (S → A) → Act S A
  gets f s = (ok (f s), s)

  abbrev pub modify : (S → S) → Act S (Unit {0})
  modify f s = (ok tt, f s)

  abbrev pub after {ℓ κ} :
      {A : Type ℓ} {B : Type κ}
      → (A → Act S B)
      → Result RespondError A × S
      → Result RespondError B × S
  after f (ok a, s) = f a s
  after f (err e, s) = (err e, s)

  infixl 5 ◌>>=◌
  unfoldable pub ◌>>=◌ {ℓ κ} : {A : Type ℓ} {B : Type κ} → Act S A → (A → Act S B) → Act S B
  ◌>>=◌ m f s = after f (m s)

  abbrev lifted {ℓ} : {A : Type ℓ} → Result StoreError A × S → Result RespondError A × S
  lifted (ok a, s) = (ok a, s)
  lifted (err e, s) = (err (from_store e), s)

  -- An operation of the store with `?`.
  unfoldable pub on_store {ℓ} : {A : Type ℓ} → (S → Result StoreError A × S) → Act S A
  on_store m s = lifted (m s)

  abbrev pub catches {ℓ} :
      {A : Type 0} {B : Type ℓ}
      → (A → Act S B)
      → Act S B
      → Result StoreError A × S
      → Result RespondError B × S
  catches f g (ok a, s) = f a s
  catches f g (err other_work, s) = g s
  catches f g (err (failed e), s) = (err (from_store (failed e)), s)

  -- An operation whose deferral is answered by `g`.
  unfoldable pub or_deferred {ℓ} :
      {A : Type 0} {B : Type ℓ} → (S → Result StoreError A × S) → (A → Act S B) → Act S B → Act S B
  or_deferred m f g s = catches f g (m s)

abbrev pub continues : Responder → List ScanMessage → Turn
continues r sent = record { responder = r; sent = sent; report = none; staged = []; installed = [] }

abbrev pub deferred_report : Report
deferred_report = record { round_deferred = true; transferred = 0; conflicts = 0 }

abbrev pub ends_with : Responder → List ScanMessage → Report → Turn
ends_with r sent report = record {
  responder = r;
  sent = sent;
  report = some report;
  staged = [];
  installed = [];
}

infixl 5 ◌>>◌
abbrev pub ◌>>◌ {ℓ} : {S : Type 0} {B : Type ℓ} → Act S (Unit {0}) → Act S B → Act S B
m >> k = m >>= λ _. k

-- The round is put off: the scan is dropped and the other side told.
unfoldable pub defer_round : {S : Type 0} → Store S → Responder → List ScanMessage → Act S Turn
defer_round store r sent = do
  on_store store.discard_scan
  pure (ends_with r (sent ++ (scan_deferred ∷ [])) deferred_report)
