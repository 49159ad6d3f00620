-- ===== src/Round/Windows/Fair.antt =====
-- The windows of unconfirmed transfers of crates/rowd-core/src/sync.rs, and what the receiver of a
-- batch checks of them.
use rowd.Base.{
  true, false, ℕ, ◌+◌, ◌≤◌, ◌<◌, err, Text, Option, Bool, List, [], ◌∷◌, ◌++◌, length, Result, ok,
  ◌≡◌, ◌≢◌, refl, arith,
}
use rowd.Model.{Entry, Manifest}
use rowd.Round.{
  Round, Halt, PendingPut, PendingGet, max_in_flight_files, max_staged_bytes, saturating_add,
  too_many_staged_files, too_many_staged_bytes, unwrapped_none,
}
use rowd.Round.Batch.{check_put, receive, read_batch}
use rowd.Round.Exec.{
  Keeps-report, Exec, Halts, Keeps, Keeps-pure, Keeps-stop, Keeps-lift, Keeps-branch, Keeps-inspect,
  Keeps-when, Keeps-modify, Keeps-bind, Keeps-bind-lift, modify, inspect, ◌>>=◌, ◌>>◌,
}
use rowd.Round.Turns.{Turns, Turns-keep, Turns-bind, Turns-modify}
use rowd.Round.Transfer.{
  Env, install, snapshot, install_local, install_peer, snapshot_local, remote_snapshot,
  install_puts, receive_put_batch, remote_install, commit_base, confirm_puts, drain_puts,
  drain_gets, acknowledge, flush_ack_batch, receive_get_job, receive_get_window, install_get_jobs,
}
use rowd.Round.Loop.{flush_puts, flush_gets}

-- The stops that the two windows and the `unwrap`s are there to exclude.
pub record IsFair (h : Halt) : Type 0 where
  pub files : h ≢ too_many_staged_files
  pub bytes : h ≢ too_many_staged_bytes
  pub present : h ≢ unwrapped_none

unfoldable pub total_puts : List PendingPut → ℕ
total_puts [] = 0
total_puts (job ∷ jobs) = job.entry.size + total_puts jobs

unfoldable pub total_gets : List PendingGet → ℕ
total_gets [] = 0
total_gets (job ∷ jobs) = job.entry.size + total_gets jobs

-- At most `k` files of `m` bytes are on their way to the phone, and `l` of `n` bytes to the PC.
pub record Bounded (k m l n : ℕ) (r : Round) : Type 0 where
  pub put_files : length r.pending_puts ≤ k
  pub put_total : total_puts r.pending_puts ≤ r.put_bytes
  pub put_limit : r.put_bytes ≤ m
  pub get_files : length r.pending_gets ≤ l
  pub get_total : total_gets r.pending_gets ≤ r.get_bytes
  pub get_limit : r.get_bytes ≤ n

pub total_puts-append :
    (js ks : List PendingPut) → total_puts (js ++ ks) ≡ total_puts js + total_puts ks
unfolding total_puts
total_puts-append [] ks = omega arith
total_puts-append (j ∷ js) ks = omega (arith, total_puts-append js ks)

pub total_gets-append :
    (js ks : List PendingGet) → total_gets (js ++ ks) ≡ total_gets js + total_gets ks
unfolding total_gets
total_gets-append [] ks = omega arith
total_gets-append (j ∷ js) ks = omega (arith, total_gets-append js ks)

install-Fair :
    (excluded : Text → Bool) (path : Text) (expected : Option Text) (entry : Entry)
    (files : Manifest)
    → Halts IsFair (install excluded path expected entry files)
unfolding install
install-Fair excluded path expected entry files = ground arith

snapshot-Fair :
    (excluded : Text → Bool) (path : Text) (entry : Entry) (files : Manifest)
    → Halts IsFair (snapshot excluded path entry files)
unfolding snapshot
snapshot-Fair excluded path entry files = ground arith

-- Reading a local file keeps whatever is known of the state.
pub snapshot_local-Fair :
    (env : Env) {P : Round → Type 0} (path : Text) (entry : Entry)
    → Keeps IsFair P (snapshot_local env path entry)
unfolding snapshot_local
snapshot_local-Fair env path entry =
    Keeps-inspect _ λ s h. Keeps-lift _ (snapshot-Fair env.excluded path entry s.local)

receive-Fair :
    (r : Result Halt (Unit {0})) (job : PendingPut)
    (rest : List PendingPut × Result Halt (Unit {0}))
    → Halts IsFair r
    → Halts IsFair rest.1
    → Halts IsFair (receive r job rest).1
receive-Fair (ok u) job rest h k = k
receive-Fair (err e) job rest h k = h

check_put-Fair :
    (count bytes : ℕ) (job : PendingPut)
    → count < max_in_flight_files
    → bytes + job.entry.size ≤ max_staged_bytes
    → Halts IsFair (check_put count bytes job)
unfolding check_put
check_put-Fair count bytes job f t = ground arith

-- The first file of a batch may be of any size.
first_put-Fair : (job : PendingPut) → Halts IsFair (check_put 0 0 job)
unfolding check_put
first_put-Fair job = ground arith

read_batch-Fair :
    (count bytes : ℕ) (jobs : List PendingPut)
    → count + length jobs ≤ max_in_flight_files
    → bytes + total_puts jobs ≤ max_staged_bytes
    → Halts IsFair (read_batch count bytes jobs).1
unfolding read_batch total_puts
read_batch-Fair count bytes [] f t = tt
read_batch-Fair count bytes (job ∷ jobs) f t =
    receive-Fair (check_put count bytes job) job _
      (check_put-Fair count bytes job (omega arith) (omega arith))
      (read_batch-Fair (count + 1) (saturating_add bytes job.entry.size) jobs (omega arith)
        (ground arith))

module _ (env : Env) (k m l n : ℕ) where
  abbrev pub Fair {ℓ} : {A : Type ℓ} → Exec A → Type 0
  Fair act = Keeps IsFair (Bounded k m l n) act

  pub install_local-Fair :
      (path : Text) (expected : Option Text) (entry : Entry)
      → Fair (install_local env path expected entry)
  unfolding install_local
  install_local-Fair path expected entry = Keeps-inspect _ λ s h.
      Keeps-bind-lift _ _ (install-Fair env.excluded path expected entry s.local)
        λ files done. Keeps-modify _ λ r h. assumption

  pub install_peer-Fair :
      (path : Text) (expected : Option Text) (entry : Entry)
      → Fair (install_peer env path expected entry)
  unfolding install_peer
  install_peer-Fair path expected entry = Keeps-inspect _ λ s h.
      Keeps-bind-lift _ _ (install-Fair env.excluded path expected entry s.peer)
        λ files done. Keeps-modify _ λ r h. assumption

  pub remote_snapshot-Fair : (path : Text) (entry : Entry) → Fair (remote_snapshot env path entry)
  unfolding remote_snapshot
  remote_snapshot-Fair path entry =
      Keeps-branch _ _ _ (λ _. Keeps-stop _ (ground arith))
        λ _. Keeps-inspect _ λ s h. Keeps-lift _ (snapshot-Fair env.excluded path entry s.peer)

  install_puts-Fair : (jobs : List PendingPut) → Fair (install_puts env jobs)
  unfolding install_puts
  install_puts-Fair [] = Keeps-pure tt
  install_puts-Fair (job ∷ jobs) =
      Keeps-bind _ _ (install_peer-Fair job.path job.expected job.entry) λ _. install_puts-Fair jobs

  -- A batch that fits the window passes every check of the receiver.
  receive_put_batch-Fair :
      (jobs : List PendingPut)
      → length jobs ≤ max_in_flight_files
      → total_puts jobs ≤ max_staged_bytes
      → Fair (receive_put_batch env jobs)
  unfolding receive_put_batch
  receive_put_batch-Fair jobs f t =
      Keeps-report _ _ (read_batch-Fair 0 0 jobs (omega arith) (omega arith)) (install_puts-Fair _)

  -- A batch of one file passes, however large the file is.
  pub remote_install-Fair :
      (path : Text) (expected : Option Text) (entry : Entry)
      → Fair (remote_install env path expected entry)
  unfolding remote_install receive_put_batch read_batch
  remote_install-Fair path expected entry =
      let job : PendingPut = record { path = path; entry = entry; expected = expected } in
      Keeps-report _ _ (receive-Fair _ job _ (first_put-Fair job) tt) (install_puts-Fair _)

  pub commit_base-Fair : (path : Text) (entry : Entry) → Fair (modify (commit_base env path entry))
  unfolding commit_base
  commit_base-Fair path entry = Keeps-modify _ λ r h. assumption

  confirm_puts-Bounded :
      (jobs : List PendingPut) (r : Round)
      → Bounded k m l n r
      → Bounded k m l n (confirm_puts env jobs r)
  unfolding confirm_puts commit_base
  confirm_puts-Bounded [] r h = h
  confirm_puts-Bounded (job ∷ jobs) r h =
      confirm_puts-Bounded jobs (commit_base env job.path job.entry r) (assumption)

  -- What follows once the jobs have been taken out of the window.
  pub send_batch-Fair :
      (jobs : List PendingPut)
      → length jobs ≤ max_in_flight_files
      → total_puts jobs ≤ max_staged_bytes
      → Fair (receive_put_batch env jobs >> modify (confirm_puts env jobs))
  send_batch-Fair jobs f t =
      Keeps-bind _ _ (receive_put_batch-Fair jobs f t)
        λ _. Keeps-modify _ (confirm_puts-Bounded jobs)

  pub flush_ack_batch-Fair : Fair (flush_ack_batch env)
  unfolding flush_ack_batch
  flush_ack_batch-Fair = Keeps-inspect _ λ s h. Keeps-when _ _ λ _. Keeps-modify _ λ r h. assumption

  pub acknowledge-Fair : (path : Text) (entry : Entry) → Fair (acknowledge env path entry)
  unfolding acknowledge
  acknowledge-Fair path entry =
      Keeps-bind _ _ (Keeps-modify _ λ r h. assumption)
        λ _. Keeps-inspect _ λ s h. Keeps-when _ _ λ _. flush_ack_batch-Fair

  receive_get_job-Fair : (was : Bool) (job : PendingGet) → Fair (receive_get_job env was job)
  unfolding receive_get_job
  receive_get_job-Fair was job =
      Keeps-branch _ _ _ (λ _. Keeps-pure true)
        λ _.
          Keeps-branch _ _ _ (λ _. Keeps-stop _ (ground arith))
            λ _. Keeps-inspect _ λ s h.
              Keeps-bind _ _ (Keeps-lift _ (snapshot-Fair env.excluded job.path job.entry s.peer))
                λ _. Keeps-pure false

  receive_get_window-Fair :
      (was : Bool) (jobs : List PendingGet) → Fair (receive_get_window env was jobs)
  unfolding receive_get_window
  receive_get_window-Fair was [] = Keeps-when _ _ λ _. Keeps-stop _ (ground arith)
  receive_get_window-Fair was (job ∷ jobs) =
      Keeps-bind _ _ (receive_get_job-Fair was job) λ now. receive_get_window-Fair now jobs

  install_get_jobs-Fair : (jobs : List PendingGet) → Fair (install_get_jobs env jobs)
  unfolding install_get_jobs
  install_get_jobs-Fair [] = Keeps-pure tt
  install_get_jobs-Fair (job ∷ jobs) =
      Keeps-bind _ _ (install_local-Fair job.path job.expected job.entry) λ _.
        Keeps-bind _ _ (acknowledge-Fair job.path job.entry)
          λ _. Keeps-bind _ _ (commit_base-Fair job.path job.entry) λ _. install_get_jobs-Fair jobs

  pub fetch_window-Fair :
      (jobs : List PendingGet)
      → Fair (receive_get_window env false jobs >> install_get_jobs env jobs)
  fetch_window-Fair jobs =
      Keeps-bind _ _ (receive_get_window-Fair false jobs) λ _. install_get_jobs-Fair jobs

total_puts-empty : (jobs : List PendingPut) → length jobs ≤ 0 → total_puts jobs ≡ 0
unfolding total_puts
total_puts-empty [] h = refl
total_puts-empty (job ∷ jobs) h = absurd (omega arith)

total_gets-empty : (jobs : List PendingGet) → length jobs ≤ 0 → total_gets jobs ≡ 0
unfolding total_gets
total_gets-empty [] h = refl
total_gets-empty (job ∷ jobs) h = absurd (omega arith)

module _ (env : Env) (k m l n : ℕ) where
  widen_puts : (r : Round) → Bounded 0 m l n r → Bounded k m l n r
  widen_puts r h = ground arith

  widen_gets : (r : Round) → Bounded k m 0 n r → Bounded k m l n r
  widen_gets r h = ground arith

  -- A drained window is empty, and its count of bytes starts again at 0.
  pub flush_puts-Turns :
      k ≤ max_in_flight_files
      → m ≤ max_staged_bytes
      → Turns IsFair (Bounded k m l n) (Bounded k m l n) (Bounded 0 0 l n) (flush_puts env)
  unfolding flush_puts drain_puts inspect ◌>>=◌ total_puts
  flush_puts-Turns few small = record {
    at = λ s h.
        (Turns-bind (Bounded 0 m l n) _ _
            (Turns-keep _ widen_puts
              (send_batch-Fair env 0 m l n s.pending_puts (omega arith) (omega arith)))
            λ _. Turns-modify (λ r. record r { put_bytes = 0 }) reset).at
          (record s { pending_puts = [] }) (ground arith);
  }
    where
      reset : (r : Round) → Bounded 0 m l n r → Bounded 0 0 l n (record r { put_bytes = 0 })
      reset r h = record {
        put_files = h.put_files;
        put_total = omega (arith, total_puts-empty r.pending_puts h.put_files);
        put_limit = omega arith;
        get_files = h.get_files;
        get_total = h.get_total;
        get_limit = h.get_limit;
      }

  pub flush_gets-Turns :
      Turns IsFair (Bounded k m l n) (Bounded k m l n) (Bounded k m 0 0) (flush_gets env)
  unfolding flush_gets drain_gets inspect ◌>>=◌ total_gets
  flush_gets-Turns = record {
    at = λ s h.
        (Turns-bind (Bounded k m 0 n) _ _
            (Turns-keep _ widen_gets (fetch_window-Fair env k m 0 n s.pending_gets))
            λ _. Turns-modify (λ r. record r { get_bytes = 0 }) reset).at
          (record s { pending_gets = [] }) (ground arith);
  }
    where
      reset : (r : Round) → Bounded k m 0 n r → Bounded k m 0 0 (record r { get_bytes = 0 })
      reset r h = record {
        put_files = h.put_files;
        put_total = h.put_total;
        put_limit = h.put_limit;
        get_files = h.get_files;
        get_total = omega (arith, total_gets-empty r.pending_gets h.get_files);
        get_limit = omega arith;
      }
