-- ===== src/Round/Edits/Transfers.antt =====
-- What the transfers of crates/rowd-core/src/sync.rs leave alone: a file of the PC that no transfer
-- under way expects to replace.
use rowd.Base.{
  Bool, true, false, Text, lookup, lookup-insert, Option, some, Bool, List, [], ◌∷◌, All,
  text_eq_iff, ◌≡◌, ◌≢◌, arith, ok, Result,
}
use rowd.Model.{Entry, Manifest, hash_of, opt_eq_iff}
use rowd.Round.{Round, Halt, PendingGet, PendingPut}
use rowd.Round.Exec.{
  Any, Keeps, Keeps-pure, Keeps-stop, Keeps-lift, Keeps-report, Keeps-branch, Keeps-inspect,
  Keeps-when, Keeps-modify, Keeps-bind, Keeps-bind-lift, Halts-Any, modify,
}
use rowd.Round.Transfer.{
  Env, install, install_local, install_peer, snapshot_local, remote_snapshot, install_puts,
  receive_put_batch, remote_install, drain_puts, drain_gets, acknowledge, flush_ack_batch,
  confirm_puts, receive_get_job, receive_get_window, install_get_jobs, commit_base,
}

-- An installation replaces only a file that has the hash that it expects.
pub install-keeps :
    (excluded : Text → Bool) (path : Text) (expected : Option Text) (entry : Entry)
    (files files' : Manifest) (q : Text) (e : Entry)
    → install excluded path expected entry files ≡ ok files'
    → lookup q files ≡ some e
    → (path ≡ q → expected ≢ some e.hash)
    → lookup q files' ≡ some e
unfolding install
install-keeps excluded path expected entry files files' q e h k n = ground (
  arith,
  opt_eq_iff (hash_of (lookup path files)) expected,
  lookup-insert path q entry files,
  text_eq_iff path q,
)

-- `q` is a path whose file on the PC is `e`. `W` holds until the loop comes to `q`: so long the base of
-- `q` is `b`, and no transfer under way is one of `q`.
module _ (env : Env) (W : Type 0) (q : Text) (b : Option Text) (e : Entry) where
  abbrev pub Foreign : PendingPut → Type 0
  Foreign job = W → job.path ≢ q

  abbrev pub Spares : PendingGet → Type 0
  Spares job = (W → job.path ≢ q) × (job.path ≡ q → job.expected ≢ some e.hash)

  -- The file is there, and no transfer under way expects to replace it.
  pub record Held (r : Round) : Type 0 where
    pub there : lookup q r.local ≡ some e
    pub unread : W → lookup q r.base ≡ b
    pub puts : All Foreign r.pending_puts
    pub gets : All Spares r.pending_gets

  abbrev pub Keep {ℓ} : {A : Type ℓ} → (Round → Result Halt A × Round) → Type 0
  Keep m = Keeps Any Held m

  pub install_local-Held :
      (path : Text) (expected : Option Text) (entry : Entry)
      → (path ≡ q → expected ≢ some e.hash)
      → Keep (install_local env path expected entry)
  unfolding install_local
  install_local-Held path expected entry n = Keeps-inspect _ λ s h.
      Keeps-bind-lift _ _ (Halts-Any _) λ files done. Keeps-modify _ λ r k. record {
        there = install-keeps env.excluded path expected entry s.local files q e done h.there n;
        unread = k.unread;
        puts = k.puts;
        gets = k.gets;
      }

  pub install_peer-Held :
      (path : Text) (expected : Option Text) (entry : Entry)
      → Keep (install_peer env path expected entry)
  unfolding install_peer
  install_peer-Held path expected entry =
      Keeps-inspect _
        λ s h. Keeps-bind-lift _ _ (Halts-Any _) λ files done. Keeps-modify _ λ r k. assumption

  pub snapshot_local-Held : (path : Text) (entry : Entry) → Keep (snapshot_local env path entry)
  unfolding snapshot_local
  snapshot_local-Held path entry = Keeps-inspect _ λ s h. Keeps-lift _ (Halts-Any _)

  pub remote_snapshot-Held : (path : Text) (entry : Entry) → Keep (remote_snapshot env path entry)
  unfolding remote_snapshot
  remote_snapshot-Held path entry =
      Keeps-branch _ _ _ (λ _. Keeps-stop _ tt)
        λ _. Keeps-inspect _ λ s h. Keeps-lift _ (Halts-Any _)

  install_puts-Held : (jobs : List PendingPut) → Keep (install_puts env jobs)
  unfolding install_puts
  install_puts-Held [] = Keeps-pure tt
  install_puts-Held (job ∷ jobs) =
      Keeps-bind _ _ (install_peer-Held job.path job.expected job.entry) λ _. install_puts-Held jobs

  pub receive_put_batch-Held : (jobs : List PendingPut) → Keep (receive_put_batch env jobs)
  unfolding receive_put_batch
  receive_put_batch-Held jobs = Keeps-report _ _ (Halts-Any _) (install_puts-Held _)

  pub remote_install-Held :
      (path : Text) (expected : Option Text) (entry : Entry)
      → Keep (remote_install env path expected entry)
  unfolding remote_install
  remote_install-Held path expected entry =
      receive_put_batch-Held (record { path = path; entry = entry; expected = expected } ∷ [])

  commit_base-Held :
      (path : Text) (entry : Entry)
      → (W → path ≢ q)
      → (r : Round) → Held r
      → Held (commit_base env path entry r)
  unfolding commit_base
  commit_base-Held path entry n r k = record {
    there = k.there;
    unread = λ w.
        ground (arith, lookup-insert path q entry.hash r.base, text_eq_iff path q, n w, k.unread w);
    puts = k.puts;
    gets = k.gets;
  }

  confirm_puts-Held :
      (jobs : List PendingPut)
      → All Foreign jobs
      → (r : Round) → Held r
      → Held (confirm_puts env jobs r)
  unfolding confirm_puts
  confirm_puts-Held [] n r h = h
  confirm_puts-Held (job ∷ jobs) n r h =
      confirm_puts-Held jobs n.1 _ (commit_base-Held job.path job.entry n.0 r h)

  pub drain_puts-Held : Keep (drain_puts env)
  unfolding drain_puts
  drain_puts-Held = Keeps-inspect _ λ s h.
      Keeps-bind _ _
        (Keeps-modify _
          λ r k. record { there = k.there; unread = k.unread; puts = tt; gets = k.gets })
        λ _.
          Keeps-bind _ _ (receive_put_batch-Held s.pending_puts)
            λ _. Keeps-modify _ (confirm_puts-Held s.pending_puts h.puts)

  pub flush_ack_batch-Held : Keep (flush_ack_batch env)
  unfolding flush_ack_batch
  flush_ack_batch-Held = Keeps-inspect _ λ s h. Keeps-when _ _ λ _. Keeps-modify _ λ r k. assumption

  pub acknowledge-Held : (path : Text) (entry : Entry) → Keep (acknowledge env path entry)
  unfolding acknowledge
  acknowledge-Held path entry =
      Keeps-bind _ _ (Keeps-modify _ λ r k. assumption)
        λ _. Keeps-inspect _ λ s h. Keeps-when _ _ λ _. flush_ack_batch-Held

  pub modify_base-Held :
      (path : Text) (entry : Entry) → (W → path ≢ q) → Keep (modify (commit_base env path entry))
  modify_base-Held path entry n = Keeps-modify _ (commit_base-Held path entry n)

  receive_get_job-Held : (was : Bool) (job : PendingGet) → Keep (receive_get_job env was job)
  unfolding receive_get_job
  receive_get_job-Held was job =
      Keeps-branch _ _ _ (λ _. Keeps-pure true)
        λ _.
          Keeps-branch _ _ _ (λ _. Keeps-stop _ tt)
            λ _.
              Keeps-inspect _
                λ s h. Keeps-bind _ _ (Keeps-lift _ (Halts-Any _)) λ _. Keeps-pure false

  pub receive_get_window-Held :
      (was : Bool) (jobs : List PendingGet) → Keep (receive_get_window env was jobs)
  unfolding receive_get_window
  receive_get_window-Held was [] = Keeps-when _ _ λ _. Keeps-stop _ tt
  receive_get_window-Held was (job ∷ jobs) =
      Keeps-bind _ _ (receive_get_job-Held was job) λ now. receive_get_window-Held now jobs

  pub install_get_jobs-Held :
      (jobs : List PendingGet) → All Spares jobs → Keep (install_get_jobs env jobs)
  unfolding install_get_jobs
  install_get_jobs-Held [] n = Keeps-pure tt
  install_get_jobs-Held (job ∷ jobs) n =
      Keeps-bind _ _ (install_local-Held job.path job.expected job.entry n.0.1) λ _.
        Keeps-bind _ _ (acknowledge-Held job.path job.entry) λ _.
          Keeps-bind _ _ (modify_base-Held job.path job.entry n.0.0)
            λ _. install_get_jobs-Held jobs n.1

  pub drain_gets-Held : Keep (drain_gets env)
  unfolding drain_gets
  drain_gets-Held = Keeps-inspect _ λ s h.
      Keeps-bind _ _
        (Keeps-modify _
          λ r k. record { there = k.there; unread = k.unread; puts = k.puts; gets = tt })
        λ _.
          Keeps-bind _ _ (receive_get_window-Held false s.pending_gets)
            λ _. install_get_jobs-Held s.pending_gets h.gets
