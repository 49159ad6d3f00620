-- ===== src/Round/Merge/Leads.antt =====
-- Actions of a round of crates/rowd-core/src/sync.rs, as far as they return.
use rowd.Base.{
  ℕ, ◌+◌, List, [], ◌∷◌, Text, lookup, lookup-insert, text_eq, text_eq_iff, Option, none, some,
  Bool, true, false, Result, ok, err, ◌≡◌, refl, ap, arith, if◌then◌else◌,
}
use rowd.Model.{Entry, Manifest, entry_eq_iff}
use rowd.Round.{Round, Halt, PendingPut, saturating_add}
use rowd.Round.Batch.{read_batch, check_put, receive}
use rowd.Round.Exec.{Exec, Any, pure, stop, lift, inspect, when, unwrap, report, ◌>>=◌}
use rowd.Round.Turns.{Turns, Turns-bind, Turns-modify, when-Ends}
use rowd.Round.Transfer.{
  Env, install_puts, receive_put_batch, remote_install, install, install_peer, install_local, holds,
}

abbrev pub Always : Round → Type 0
Always r = Unit

-- From a state of `P`, `m` returns in one of `Q`, or stops.
abbrev pub Leads {ℓ} : {A : Type ℓ} → (Round → Type 0) → (Round → Type 0) → Exec A → Type 0
Leads P Q m = Turns Any Always P Q m

module _ {ℓ} {A : Type ℓ} {P Q : Round → Type 0} where
  pub Leads-pure : (a : A) → ((s : Round) → P s → Q s) → Leads P Q (pure a)
  unfolding pure
  Leads-pure a w = record { at = w }

  pub Leads-stop : (h : Halt) → Leads P Q (stop {A = A} h)
  unfolding stop
  Leads-stop h = record { at = λ s p. (tt, tt) }

  -- The rest may use what was read, and that it has `P`.
  pub Leads-inspect :
      (f : Round → Exec A) → ((s : Round) → P s → Leads P Q (f s)) → Leads P Q (inspect f)
  unfolding inspect
  Leads-inspect f h = record { at = λ s p. (h s p).at s p }

  -- The rest may use that the state is the one that was read.
  pub Leads-read :
      (f : Round → Exec A)
      → ((s : Round) → P s → Leads (λ r. r ≡ s) Q (f s))
      → Leads P Q (inspect f)
  unfolding inspect
  Leads-read f h = record { at = λ s p. (h s p).at s refl }

  pub Leads-from : (m : Exec A) → ((s : Round) → P s → Leads (λ r. r ≡ s) Q m) → Leads P Q m
  Leads-from m h = record { at = λ s p. (h s p).at s refl }

module _ {P Q : Round → Type 0} where
  pub Leads-report :
      (r : Result Halt (Unit {0})) (m : Exec (Unit {0}))
      → (r ≡ ok tt → Leads P Q m)
      → Leads P Q (report r m)
  unfolding report
  Leads-report (ok u) m h = record { at = λ s p. (h refl).at s p }
  Leads-report (err e) m h = record { at = λ s p. (tt, tt) }

  pub Leads-when :
      (b : Bool) (m : Exec (Unit {0}))
      → (b ≡ true → Leads P Q m)
      → (b ≡ false → (s : Round) → P s → Q s)
      → Leads P Q (when b m)
  Leads-when b m hm hn = record {
    at = λ s p. when-Ends Any Always Q b m s (λ e. (hm e).at s p) (λ e. hn e s p);
  }

module _ {ℓ κ} {A : Type ℓ} {B : Type κ} {P Q : Round → Type 0} where
  pub Leads-lift :
      (r : Result Halt A) (f : A → Exec B)
      → ((a : A) → r ≡ ok a → Leads P Q (f a))
      → Leads P Q (lift r >>= f)
  unfolding ◌>>=◌
  Leads-lift (ok a) f h = h a refl
  Leads-lift (err e) f h = Leads-stop e

  pub Leads-unwrap :
      (o : Option A) (f : A → Exec B)
      → ((a : A) → o ≡ some a → Leads P Q (f a))
      → Leads P Q (unwrap o >>= f)
  unfolding ◌>>=◌
  Leads-unwrap none f h = Leads-stop _
  Leads-unwrap (some a) f h = h a refl

-- The files after an installation that returned.
abbrev pub Installed : Text → Entry → Manifest → Manifest → Type 0
Installed path entry files files' =
    (q : Text) → lookup q files' ≡ (if text_eq path q then some entry else lookup q files)

holds-eq : (o : Option Entry) (entry : Entry) → holds o entry ≡ true → o ≡ some entry
unfolding holds
holds-eq none entry h = cc
holds-eq (some d) entry h = ap some ((entry_eq_iff d entry).0 h)

install-Installed :
    (excluded : Text → Bool) (path : Text) (expected : Option Text) (entry : Entry)
    (files files' : Manifest)
    → install excluded path expected entry files ≡ ok files'
    → Installed path entry files files'
unfolding install
install-Installed excluded path expected entry files files' h q = ground (
  arith,
  h,
  holds-eq (lookup path files) entry,
  lookup-insert path q entry files,
  text_eq_iff path q,
)

module _ (env : Env) (path : Text) (expected : Option Text) (entry : Entry)
    {P Q : Round → Type 0} where
  pub install_peer-Leads :
      ((s : Round) (files : Manifest)
        → P s
        → Installed path entry s.peer files
        → Q (record s { peer = files }))
      → Leads P Q (install_peer env path expected entry)
  unfolding install_peer
  install_peer-Leads h = Leads-read _ λ s p. Leads-lift _ _ λ files done. Turns-modify _ λ r e.
      rw e (h s files p (install-Installed env.excluded path expected entry s.peer files done))

  pub install_local-Leads :
      ((s : Round) (files : Manifest)
        → P s
        → Installed path entry s.local files
        → Q (record s { local = files }))
      → Leads P Q (install_local env path expected entry)
  unfolding install_local
  install_local-Leads h = Leads-read _ λ s p. Leads-lift _ _ λ files done. Turns-modify _ λ r e.
      rw e (h s files p (install-Installed env.excluded path expected entry s.local files done))

receive-all :
    (r : Result Halt (Unit {0})) (job : PendingPut) (jobs : List PendingPut)
    (rest : List PendingPut × Result Halt (Unit {0}))
    → (rest.1 ≡ ok tt → rest.0 ≡ jobs)
    → (receive r job rest).1 ≡ ok tt
    → (receive r job rest).0 ≡ job ∷ jobs
receive-all (ok u) job jobs rest h e = ap (λ js. job ∷ js) (h e)
receive-all (err x) job jobs rest h e = cc

-- A batch that passes is received whole.
pub read_batch-all :
    (count bytes : ℕ) (jobs : List PendingPut)
    → (read_batch count bytes jobs).1 ≡ ok tt
    → (read_batch count bytes jobs).0 ≡ jobs
unfolding read_batch
read_batch-all count bytes [] e = refl
read_batch-all count bytes (job ∷ jobs) e =
    receive-all (check_put count bytes job) job jobs _
      (read_batch-all (count + 1) (saturating_add bytes job.entry.size) jobs) e

module _ (env : Env) (path : Text) (expected : Option Text) (entry : Entry)
    {P Q : Round → Type 0} where
  pub remote_install-Leads :
      ((s : Round) (files : Manifest)
        → P s
        → Installed path entry s.peer files
        → Q (record s { peer = files }))
      → Leads P Q (remote_install env path expected entry)
  unfolding remote_install receive_put_batch
  remote_install-Leads h =
      let job : PendingPut = record { path = path; entry = entry; expected = expected } in
      Leads-report _ _ λ passed. rw (read_batch-all 0 0 (job ∷ []) passed) (
        unfold install_puts in
        Turns-bind Q _ _ (install_peer-Leads env path expected entry h) λ _. Leads-pure tt λ s k. k)
