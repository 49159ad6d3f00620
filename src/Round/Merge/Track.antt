-- ===== src/Round/Merge/Track.antt =====
-- One path through the windows of a round of crates/rowd-core/src/sync.rs, as far as they return.
use rowd.Base.{ℕ, Text, lookup, Option, some, Bool, true, false, List, [], ◌∷◌, ◌≡◌}
use rowd.Model.{Entry, Manifest}
use rowd.Round.{Round, PendingPut, PendingGet}
use rowd.Round.Exec.{
  Any, Keeps, Keeps-pure, Keeps-stop, Keeps-when, Keeps-branch, Keeps-inspect, Keeps-lift,
  Keeps-bind, Keeps-modify, Halts-Any,
}
use rowd.Round.Transfer.{Env, acknowledge, flush_ack_batch, receive_get_job, receive_get_window}
use rowd.Round.Merge.Due.{due, Only}

abbrev pub put_path : PendingPut → Text
put_path job = job.path

abbrev pub get_path : PendingGet → Text
get_path job = job.path

-- `K` says of a transfer of `q` under way that there may be one, and `c` is the hash that it commits.
module _ (q : Text) (K : Type 0) (x y : Option Entry) (c : Option Text) where
  abbrev pub Owed : Text → Type 0
  Owed hash = K × (some hash ≡ c)

  -- Once the Gets of `lg` and the Puts of `pp` are installed and those of `bp` and `bg` committed, the
  -- PC has `x`, the phone `y`, and the base `c`.
  pub record Track (lg : List PendingGet) (pp bp : List PendingPut) (bg : List PendingGet)
      (puts : List PendingPut) (gets : List PendingGet) (r : Round) : Type 0 where
    pub local : due get_path (λ j. j.entry) q lg (lookup q r.local) ≡ x
    pub peer : due put_path (λ j. j.entry) q pp (lookup q r.peer) ≡ y
    pub base :
        due get_path
          (λ j. j.entry.hash)
          q
          bg
          (due put_path (λ j. j.entry.hash) q bp (lookup q r.base))
        ≡ c
    pub puts_owed : Only put_path (λ j. j.entry.hash) q Owed bp
    pub gets_owed : Only get_path (λ j. j.entry.hash) q Owed bg
    pub puts_are : r.pending_puts ≡ puts
    pub gets_are : r.pending_gets ≡ gets

  abbrev pub Now : Round → Type 0
  Now r =
      Track r.pending_gets r.pending_puts r.pending_puts r.pending_gets r.pending_puts
        r.pending_gets r

module _ (env : Env) {P : Round → Type 0} where
  -- An acknowledgement changes nothing but its batch.
  pub flush_ack_batch-Keeps :
      ((r : Round) (batch : Manifest) (n : ℕ)
        → P r
        → P (record r { ack_batch = batch; ack_messages = n }))
      → Keeps Any P (flush_ack_batch env)
  unfolding flush_ack_batch
  flush_ack_batch-Keeps w =
      Keeps-inspect _ λ t k. Keeps-when _ _ λ _. Keeps-modify _ λ r h. w r _ _ h

  pub acknowledge-Keeps :
      (path : Text) (entry : Entry)
      → ((r : Round) (batch : Manifest) (n : ℕ)
          → P r
          → P (record r { ack_batch = batch; ack_messages = n }))
      → Keeps Any P (acknowledge env path entry)
  unfolding acknowledge
  acknowledge-Keeps path entry w =
      Keeps-bind _ _ (Keeps-modify _ λ r h. w r _ r.ack_messages h)
        λ _. Keeps-inspect _ λ s h. Keeps-when _ _ λ _. flush_ack_batch-Keeps w

  pub receive_get_window-Keeps :
      (was : Bool) (jobs : List PendingGet) → Keeps Any P (receive_get_window env was jobs)
  unfolding receive_get_window receive_get_job
  receive_get_window-Keeps was [] = Keeps-when _ _ λ _. Keeps-stop _ tt
  receive_get_window-Keeps was (job ∷ jobs) =
      Keeps-bind _ _
        (Keeps-branch _ _ _ (λ _. Keeps-pure true)
          λ _.
            Keeps-branch _ _ _ (λ _. Keeps-stop _ tt)
              λ _.
                Keeps-inspect _
                  λ s h. Keeps-bind _ _ (Keeps-lift _ (Halts-Any _)) λ _. Keeps-pure false)
        λ now. receive_get_window-Keeps now jobs
