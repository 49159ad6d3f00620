-- ===== src/Round/Transfer.antt =====
-- Reading, sending and installing one file, and the draining of the two windows:
-- crates/rowd-core/src/sync.rs, with `install_file` and `snapshot` of crates/rowd-core/src/storage.rs
-- as far as their result goes (Recovery models how an installation is made safe against a crash).
use rowd.Base.{
  ◌+◌, Text, lookup, insert, Option, none, some, Bool, true, false, ◌==◌, List, [], ◌∷◌, length,
  if◌then◌else◌, Result, ok, err,
}
use rowd.Config.{SyncMode, RemapPolicy}
use rowd.Model.{Entry, Manifest, entry_eq, opt_eq, hash_of}
use rowd.Paths.{validate_path}
use rowd.Round.{
  Round, Halt, PendingPut, PendingGet, manifest_chunk_files, deferred, unexpected_blob,
  stale_source, stale_target, ignored_path,
}
use rowd.Round.Batch.{on_path, read_batch}
use rowd.Round.Exec.{report, Exec, pure, stop, lift, modify, when, branch, inspect, ◌>>=◌, ◌>>◌}

-- What a round is given: the Share's direction and policy, its ignore rules, the two manifests that
-- the scans returned, the Gets that the phone will defer for an audit, and SHA-256.
pub record Env : Type 0 where
  pub mode : SyncMode
  pub remap : Option RemapPolicy
  pub excluded : Text → Bool
  pub defers : Text → Bool
  pub digest : Text → Text
  pub pc : Manifest
  pub android : Manifest

-- `current.as_ref() == Some(entry)`
unfoldable pub holds : Option Entry → Entry → Bool
unfolding entry_eq
holds none e = false
holds (some d) e = entry_eq d e

abbrev pub ensure_or : Bool → Halt → Result Halt (Unit {0})
ensure_or true h = ok tt
ensure_or false h = err h

-- `install_file`, when nothing else writes to the path meanwhile.
unfoldable pub install :
    (Text → Bool) → Text → Option Text → Entry → Manifest → Result Halt Manifest
unfolding holds opt_eq
install excluded path expected entry files =
    let current = lookup path files in
    if excluded path
    then err ignored_path
    else on_path (validate_path path) (
        if holds current entry
        then ok files
        else if opt_eq (hash_of current) expected
        then ok (insert path entry files)
        else err stale_target)

-- `snapshot`: a private copy of a file that still is what the manifest said.
unfoldable pub snapshot : (Text → Bool) → Text → Entry → Manifest → Result Halt (Unit {0})
unfolding holds
snapshot excluded path entry files =
    if excluded path
    then err ignored_path
    else on_path (validate_path path) (ensure_or (holds (lookup path files) entry) stale_source)

-- `!is_empty()`
abbrev pub filled {ℓ} : {A : Type ℓ} → List A → Bool
filled [] = false
filled (_ ∷ _) = true

module _ (env : Env) where
  unfoldable pub install_local : Text → Option Text → Entry → Exec (Unit {0})
  unfolding install
  install_local path expected entry = inspect λ s. do
    files ← lift (install env.excluded path expected entry s.local)
    modify (λ r. record r { local = files })

  unfoldable pub install_peer : Text → Option Text → Entry → Exec (Unit {0})
  unfolding install
  install_peer path expected entry = inspect λ s. do
    files ← lift (install env.excluded path expected entry s.peer)
    modify (λ r. record r { peer = files })

  unfoldable pub snapshot_local : Text → Entry → Exec (Unit {0})
  unfolding snapshot
  snapshot_local path entry = inspect λ s. lift (snapshot env.excluded path entry s.local)

  -- A `Get` and its answer: a deferral, or the bytes, which the phone reads as `snapshot` does. The checks of its
  -- path, hash and size, which `validate_manifest` made of every entry of an accepted manifest, are not made again.
  unfoldable pub remote_snapshot : Text → Entry → Exec (Unit {0})
  unfolding snapshot
  remote_snapshot path entry =
      branch (env.defers path) (stop deferred)
        (inspect λ s. lift (snapshot env.excluded path entry s.peer))

  unfoldable pub install_puts : List PendingPut → Exec (Unit {0})
  unfolding install_peer
  install_puts [] = pure tt
  install_puts (job ∷ jobs) = do install_peer job.path job.expected job.entry; install_puts jobs

  -- `receive_put_batch` of the phone: one thread checks and receives the files, the other installs what
  -- was received up to its first error. The error of the first counts more.
  unfoldable pub receive_put_batch : List PendingPut → Exec (Unit {0})
  unfolding install_puts
  receive_put_batch jobs =
      let (received, read_result) = read_batch 0 0 jobs in
      report read_result (install_puts received)

  -- `remote_install`: a batch of one file, confirmed at once.
  unfoldable pub remote_install : Text → Option Text → Entry → Exec (Unit {0})
  unfolding receive_put_batch
  remote_install path expected entry =
      receive_put_batch (record { path = path; entry = entry; expected = expected } ∷ [])

  unfoldable pub commit_base : Text → Entry → Round → Round
  commit_base path entry r = record r {
    base = insert path entry.hash r.base;
    transferred = r.transferred + 1;
  }

  -- One `Accept` for each file of the batch.
  unfoldable pub confirm_puts : List PendingPut → Round → Round
  unfolding commit_base
  confirm_puts [] r = r
  confirm_puts (job ∷ jobs) r = confirm_puts jobs (commit_base job.path job.entry r)

  unfoldable pub drain_puts : Exec (Unit {0})
  unfolding receive_put_batch confirm_puts
  drain_puts = inspect λ s. do
    modify (λ r. record r { pending_puts = [] })
    receive_put_batch s.pending_puts
    modify (confirm_puts s.pending_puts)

  unfoldable pub flush_ack_batch : Exec (Unit {0})
  flush_ack_batch = inspect λ s.
      when (filled s.ack_batch)
        (modify λ r. record r { ack_batch = []; ack_messages = r.ack_messages + 1 })

  -- `ack_batch.insert`, and the flush of a full batch
  unfoldable pub acknowledge : Text → Entry → Exec (Unit {0})
  unfolding flush_ack_batch
  acknowledge path entry = do
    modify (λ r. record r { ack_batch = insert path entry r.ack_batch })
    inspect λ s. when (length s.ack_batch == manifest_chunk_files) flush_ack_batch

  -- `receive_get_window`: every answer of the window is read before anything is installed.
  -- After a deferral the phone has to defer the rest of the window too.
  unfoldable pub receive_get_job : Bool → PendingGet → Exec Bool
  unfolding snapshot
  receive_get_job was_deferred job = branch (env.defers job.path) (pure true) (
      branch was_deferred (stop unexpected_blob)
        (inspect λ s. do lift (snapshot env.excluded job.path job.entry s.peer); pure false))

  unfoldable pub receive_get_window : Bool → List PendingGet → Exec (Unit {0})
  unfolding receive_get_job
  receive_get_window was_deferred [] = when was_deferred (stop deferred)
  receive_get_window was_deferred (job ∷ jobs) = do
    now_deferred ← receive_get_job was_deferred job
    receive_get_window now_deferred jobs

  unfoldable pub install_get_jobs : List PendingGet → Exec (Unit {0})
  unfolding install_local acknowledge commit_base
  install_get_jobs [] = pure tt
  install_get_jobs (job ∷ jobs) = do
    install_local job.path job.expected job.entry
    acknowledge job.path job.entry
    modify (commit_base job.path job.entry)
    install_get_jobs jobs

  unfoldable pub drain_gets : Exec (Unit {0})
  unfolding receive_get_window install_get_jobs
  drain_gets = inspect λ s. do
    modify (λ r. record r { pending_gets = [] })
    receive_get_window false s.pending_gets
    install_get_jobs s.pending_gets
