-- ===== src/Round/Merge/Elsewhere.antt =====
-- What a round of crates/rowd-core/src/sync.rs does with the other paths, seen from one path.
use rowd.Base.{
  ℕ, Result, Text, lookup, lookup-insert, lookup-remove, text_eq, text_eq_iff, Option, none, some,
  false, [], ◌∷◌, ◌++◌, All-append, ◌≡◌, ◌≢◌, refl, arith,
}
use rowd.Model.{Entry}
use rowd.Round.{Round, Halt, PendingPut, PendingGet}
use rowd.Round.Exec.{
  Keeps, Keeps-lift, Keeps-inspect, Keeps-branch, Keeps-stop, Halts-Any, Any, modify,
}
use rowd.Round.Turns.{Turns-bind, Turns-keep, Turns-modify, Turns-branch}
use rowd.Round.Transfer.{
  Env, commit_base, acknowledge, remote_install, install_local, snapshot_local, remote_snapshot,
}
use rowd.Round.Loop.{flush_puts, flush_gets, settle, finish_put, send_put, finish_get, send_get}
use rowd.Round.Merge.Leads.{
  Leads, Leads-when, Leads-inspect, install_local-Leads, remote_install-Leads,
}
use rowd.Round.Merge.Due.{due, due-append}
use rowd.Round.Merge.Track.{Now, put_path, get_path, acknowledge-Keeps}
use rowd.Round.Merge.Drains.{drain_puts-Now, drain_gets-Now}

-- A write to another path does not show.
pub text_eq_other : (path q : Text) → path ≢ q → text_eq path q ≡ false
text_eq_other path q n = ground (arith, text_eq_iff path q)

module _ (env : Env) {P : Round → Type 0} where
  pub snapshot_local-Keeps :
      (path : Text) (entry : Entry) → Keeps Any P (snapshot_local env path entry)
  unfolding snapshot_local
  snapshot_local-Keeps path entry = Keeps-inspect _ λ s h. Keeps-lift _ (Halts-Any _)

  pub remote_snapshot-Keeps :
      (path : Text) (entry : Entry) → Keeps Any P (remote_snapshot env path entry)
  unfolding remote_snapshot
  remote_snapshot-Keeps path entry =
      Keeps-branch _ _ _ (λ _. Keeps-stop _ tt)
        λ _. Keeps-inspect _ λ s h. Keeps-lift _ (Halts-Any _)

module _ (env : Env) (q : Text) (K : Type 0) (x y : Option Entry) (c : Option Text) where
  abbrev Stays {ℓ} : {A : Type ℓ} → (Round → Result Halt A × Round) → Type 0
  Stays m = Leads (Now q K x y c) (Now q K x y c) m

  pub flush_puts-Now : Stays (flush_puts env)
  unfolding flush_puts
  flush_puts-Now =
      Turns-bind _ _ _ (drain_puts-Now env q K x y c) λ _. Turns-modify _ λ r h. assumption

  pub flush_gets-Now : Stays (flush_gets env)
  unfolding flush_gets
  flush_gets-Now =
      Turns-bind _ _ _ (drain_gets-Now env q K x y c) λ _. Turns-modify _ λ r h. assumption

  pub commit_base-Now :
      (path : Text) (entry : Entry) → path ≢ q → Stays (modify (commit_base env path entry))
  unfolding commit_base
  commit_base-Now path entry n = Turns-modify _ λ r h. record {
    local = h.local;
    peer = h.peer;
    base = rw (lookup-insert path q entry.hash r.base, text_eq_other path q n) h.base;
    puts_owed = h.puts_owed;
    gets_owed = h.gets_owed;
    puts_are = refl;
    gets_are = refl;
  }

  pub remote_install-Now :
      (path : Text) (expected : Option Text) (entry : Entry)
      → path ≢ q
      → Stays (remote_install env path expected entry)
  remote_install-Now path expected entry n =
      remote_install-Leads env path expected entry λ s files h i. record {
        local = h.local;
        peer = rw (i q, text_eq_other path q n) h.peer;
        base = h.base;
        puts_owed = h.puts_owed;
        gets_owed = h.gets_owed;
        puts_are = refl;
        gets_are = refl;
      }

  pub install_local-Now :
      (path : Text) (expected : Option Text) (entry : Entry)
      → path ≢ q
      → Stays (install_local env path expected entry)
  install_local-Now path expected entry n =
      install_local-Leads env path expected entry λ s files h i. record {
        local = rw (i q, text_eq_other path q n) h.local;
        peer = h.peer;
        base = h.base;
        puts_owed = h.puts_owed;
        gets_owed = h.gets_owed;
        puts_are = refl;
        gets_are = refl;
      }

  -- A `Put` or a `Get` of another path joins its window.
  add_put-Now :
      (job : PendingPut) (r : Round) (bytes : ℕ)
      → job.path ≢ q
      → Now q K x y c r
      → Now q K x y c (record r { pending_puts = r.pending_puts ++ job ∷ []; put_bytes = bytes })
  unfolding due
  add_put-Now job r bytes n h = record {
    local = h.local;
    peer =
        rw
          (
            due-append put_path (λ j. j.entry) q r.pending_puts (job ∷ []) (lookup q r.peer),
            text_eq_other job.path q n,
          )
          h.peer;
    base =
        rw
          (
            due-append put_path (λ j. j.entry.hash) q r.pending_puts (job ∷ []) (lookup q r.base),
            text_eq_other job.path q n,
          )
          h.base;
    puts_owed = All-append _ r.pending_puts (job ∷ []) h.puts_owed (λ e. absurd (n e), tt);
    gets_owed = h.gets_owed;
    puts_are = refl;
    gets_are = refl;
  }

  add_get-Now :
      (job : PendingGet) (r : Round) (bytes : ℕ)
      → job.path ≢ q
      → Now q K x y c r
      → Now q K x y c (record r { pending_gets = r.pending_gets ++ job ∷ []; get_bytes = bytes })
  unfolding due
  add_get-Now job r bytes n h = record {
    local =
        rw
          (
            due-append get_path (λ j. j.entry) q r.pending_gets (job ∷ []) (lookup q r.local),
            text_eq_other job.path q n,
          )
          h.local;
    peer = h.peer;
    base =
        rw
          (
            due-append get_path (λ j. j.entry.hash) q r.pending_gets (job ∷ [])
                (due put_path (λ j. j.entry.hash) q r.pending_puts (lookup q r.base)),
            text_eq_other job.path q n,
          )
          h.base;
    puts_owed = h.puts_owed;
    gets_owed = All-append _ r.pending_gets (job ∷ []) h.gets_owed (λ e. absurd (n e), tt);
    puts_are = refl;
    gets_are = refl;
  }

  acknowledged : (path : Text) (entry : Entry) → Stays (acknowledge env path entry)
  acknowledged path entry =
      Turns-keep _ (λ s h. tt) (acknowledge-Keeps env path entry λ r batch n h. assumption)

  pub settle-Now : (path : Text) (p : Option Entry) → path ≢ q → Stays (settle env path p)
  unfolding settle
  settle-Now path none n = Turns-modify _ λ r h. record {
    local = h.local;
    peer = h.peer;
    base = rw (lookup-remove path q r.base, text_eq_other path q n) h.base;
    puts_owed = h.puts_owed;
    gets_owed = h.gets_owed;
    puts_are = refl;
    gets_are = refl;
  }
  settle-Now path (some p) n = Turns-bind _ _ _ (acknowledged path p) λ _. Turns-modify _ λ r h.
      record {
        local = h.local;
        peer = h.peer;
        base = rw (lookup-insert path q p.hash r.base, text_eq_other path q n) h.base;
        puts_owed = h.puts_owed;
        gets_owed = h.gets_owed;
        puts_are = refl;
        gets_are = refl;
      }

  pub send_put-Now :
      (path : Text) (ah : Option Text) (p : Entry) → path ≢ q → Stays (send_put env path ah p)
  unfolding send_put finish_put
  send_put-Now path ah p n =
      Turns-bind (Now q K x y c) _ _
        (Leads-inspect _ λ s h. Leads-when _ _ (λ _. flush_puts-Now) λ _ r k. k)
        λ _.
          Turns-bind (Now q K x y c) _ _
            (Turns-keep _ (λ s h. tt) (snapshot_local-Keeps env path p))
            λ _.
              Turns-branch _ _ _
                (λ _.
                  Turns-bind (Now q K x y c) _ _ (remote_install-Now path ah p n)
                    λ _. commit_base-Now path p n)
                λ _. Turns-modify _ λ r h. add_put-Now _ r _ n h

  pub send_get-Now :
      (path : Text) (ph : Option Text) (a : Entry) → path ≢ q → Stays (send_get env path ph a)
  unfolding send_get finish_get
  send_get-Now path ph a n =
      Turns-bind (Now q K x y c) _ _
        (Leads-inspect _ λ s h. Leads-when _ _ (λ _. flush_gets-Now) λ _ r k. k)
        λ _.
          Turns-branch _ _ _
            (λ _.
              Turns-bind (Now q K x y c) _ _
                (Turns-keep _ (λ s h. tt) (remote_snapshot-Keeps env path a))
                λ _. Turns-bind (Now q K x y c) _ _ (install_local-Now path ph a n) λ _.
                  Turns-bind (Now q K x y c) _ _ (acknowledged path a)
                    λ _. commit_base-Now path a n)
            λ _. Turns-modify _ λ r h. add_get-Now _ r _ n h
