-- ===== src/Round/Merge/Drains.antt =====
-- The windows of a round of crates/rowd-core/src/sync.rs as they drain, seen from one path.
use rowd.Base.{
  Text, lookup, lookup-insert, text_eq, Option, some, false, List, [], ◌∷◌, All-map, ◌≡◌, refl, sym,
  ap, ◌∙◌, if◌then◌else◌,
}
use rowd.Model.{Entry}
use rowd.Round.{Round, PendingPut, PendingGet}
use rowd.Round.Turns.{Turns-bind, Turns-keep, Turns-modify, Turns-then, Turns-weaken}
use rowd.Round.Transfer.{
  Env, install_puts, receive_put_batch, drain_puts, drain_gets, confirm_puts, commit_base,
  install_get_jobs,
}
use rowd.Round.Merge.Leads.{
  read_batch-all, Leads, Leads-pure, Leads-read, Leads-from, Leads-report, install_peer-Leads,
  install_local-Leads,
}
use rowd.Round.Merge.Due.{due, due_first}
use rowd.Round.Merge.Track.{
  put_path, get_path, Track, Now, acknowledge-Keeps, receive_get_window-Keeps,
}

module _ (env : Env) (q : Text) (K : Type 0) (x y : Option Entry) (c : Option Text) where
  install_puts-Track :
      (lg : List PendingGet) (jobs bp : List PendingPut) (bg : List PendingGet)
      (puts : List PendingPut) (gets : List PendingGet)
      → Leads
          (Track q K x y c lg jobs bp bg puts gets)
          (Track q K x y c lg [] bp bg puts gets)
          (install_puts env jobs)
  unfolding install_puts due
  install_puts-Track lg [] bp bg puts gets = Leads-pure tt λ s h. h
  install_puts-Track lg (job ∷ jobs) bp bg puts gets =
      Turns-bind (Track q K x y c lg jobs bp bg puts gets) _ _
        (install_peer-Leads env job.path job.expected job.entry λ s files h i. record {
          local = h.local;
          peer = rw (i q) h.peer;
          base = h.base;
          puts_owed = h.puts_owed;
          gets_owed = h.gets_owed;
          puts_are = h.puts_are;
          gets_are = h.gets_are;
        })
        λ _. install_puts-Track lg jobs bp bg puts gets

  receive_put_batch-Track :
      (lg : List PendingGet) (jobs bp : List PendingPut) (bg : List PendingGet)
      (puts : List PendingPut) (gets : List PendingGet)
      → Leads
          (Track q K x y c lg jobs bp bg puts gets)
          (Track q K x y c lg [] bp bg puts gets)
          (receive_put_batch env jobs)
  unfolding receive_put_batch
  receive_put_batch-Track lg jobs bp bg puts gets =
      Leads-report _ _
        λ passed. rw (read_batch-all 0 0 jobs passed) (install_puts-Track lg jobs bp bg puts gets)

  confirm_puts-Track :
      (lg : List PendingGet) (pp jobs : List PendingPut) (bg : List PendingGet)
      (puts : List PendingPut) (gets : List PendingGet) (r : Round)
      → Track q K x y c lg pp jobs bg puts gets r
      → Track q K x y c lg pp [] bg puts gets (confirm_puts env jobs r)
  unfolding confirm_puts commit_base due
  confirm_puts-Track lg pp [] bg puts gets r h = h
  confirm_puts-Track lg pp (job ∷ jobs) bg puts gets r h =
      confirm_puts-Track lg pp jobs bg puts gets _ (record {
        local = h.local;
        peer = h.peer;
        base = rw (lookup-insert job.path q job.entry.hash r.base) h.base;
        puts_owed = h.puts_owed.1;
        gets_owed = h.gets_owed;
        puts_are = h.puts_are;
        gets_are = h.gets_are;
      })

  pub Track→Now :
      (lg : List PendingGet) (ps : List PendingPut) (r : Round)
      → Track q K x y c lg ps ps lg ps lg r
      → Now q K x y c r
  Track→Now lg ps r h = record {
    local = rw h.gets_are h.local;
    peer = rw h.puts_are h.peer;
    base = rw (h.puts_are, h.gets_are) h.base;
    puts_owed = rw h.puts_are h.puts_owed;
    gets_owed = rw h.gets_are h.gets_owed;
    puts_are = refl;
    gets_are = refl;
  }

  -- A window that is drained is empty, and the other one is as it was.
  pub drain_puts-Track :
      (gets : List PendingGet)
      → Leads
          (λ r. Now q K x y c r × (r.pending_gets ≡ gets))
          (Track q K x y c gets [] [] gets [] gets)
          (drain_puts env)
  unfolding drain_puts
  drain_puts-Track gets = Leads-read _ λ s (h, g).
      let ps = s.pending_puts in
      Turns-bind (Track q K x y c gets ps ps gets [] gets) _ _
        (Turns-modify _ λ r e. rw e (record {
          local = rw (sym g) h.local;
          peer = h.peer;
          base = rw (sym g) h.base;
          puts_owed = h.puts_owed;
          gets_owed = rw (sym g) h.gets_owed;
          puts_are = refl;
          gets_are = g;
        }))
        λ _.
          Turns-bind (Track q K x y c gets [] ps gets [] gets) _ _
            (receive_put_batch-Track gets ps ps gets [] gets)
            λ _. Turns-modify _ λ r k. confirm_puts-Track gets [] ps gets [] gets r k

  pub drain_puts-Now : Leads (Now q K x y c) (Now q K x y c) (drain_puts env)
  drain_puts-Now = Leads-from _ λ s h.
      Turns-weaken _ _ (λ r e. rw e (h, refl))
        (Turns-then (drain_puts-Track s.pending_gets) (Track→Now s.pending_gets []))

  commit-first :
      (job : PendingGet) (jobs : List PendingGet) (ps : List PendingPut) {lg : List PendingGet}
      {pp : List PendingPut} {puts : List PendingPut} {gets : List PendingGet} (r : Round)
      → Track q K x y c lg pp ps (job ∷ jobs) puts gets r
      → due get_path
          (λ j. j.entry.hash)
          q
          jobs
          (due put_path
            (λ j. j.entry.hash)
            q
            ps
            (if text_eq job.path q then some job.entry.hash else lookup q r.base))
        ≡ c
  unfolding due
  commit-first job jobs ps r h =
      let same =
        due_first put_path (λ j. j.entry.hash) q job.path job.entry.hash ps c (lookup q r.base)
          (λ e. (h.gets_owed.0 e).1) (All-map (λ j o e. (o e).1) ps h.puts_owed) in
      ap (due get_path (λ j. j.entry.hash) q jobs) same ∙ h.base

  -- Installing and committing one file after the other.
  install_get_jobs-Track :
      (jobs : List PendingGet) (ps : List PendingPut) (puts : List PendingPut)
      (gets : List PendingGet)
      → Leads
          (Track q K x y c jobs ps ps jobs puts gets)
          (Track q K x y c [] ps ps [] puts gets)
          (install_get_jobs env jobs)
  unfolding install_get_jobs due
  install_get_jobs-Track [] ps puts gets = Leads-pure tt λ s h. h
  install_get_jobs-Track (job ∷ jobs) ps puts gets =
      Turns-bind (Track q K x y c jobs ps ps (job ∷ jobs) puts gets) _ _
        (install_local-Leads env job.path job.expected job.entry λ s files h i. record {
          local = rw (i q) h.local;
          peer = h.peer;
          base = h.base;
          puts_owed = h.puts_owed;
          gets_owed = h.gets_owed;
          puts_are = h.puts_are;
          gets_are = h.gets_are;
        })
        λ _.
          Turns-bind (Track q K x y c jobs ps ps (job ∷ jobs) puts gets) _ _
            (Turns-keep _ (λ s h. tt)
              (acknowledge-Keeps env job.path job.entry λ r batch n h. assumption))
            λ _.
              Turns-bind (Track q K x y c jobs ps ps jobs puts gets) _ _
                (Turns-modify _ λ r h. record {
                  local = h.local;
                  peer = h.peer;
                  base =
                      rw (lookup-insert job.path q job.entry.hash r.base)
                        (commit-first job jobs ps r h);
                  puts_owed = h.puts_owed;
                  gets_owed = h.gets_owed.1;
                  puts_are = h.puts_are;
                  gets_are = h.gets_are;
                })
                λ _. install_get_jobs-Track jobs ps puts gets

  pub drain_gets-Track :
      (puts : List PendingPut)
      → Leads
          (λ r. Now q K x y c r × (r.pending_puts ≡ puts))
          (Track q K x y c [] puts puts [] puts [])
          (drain_gets env)
  unfolding drain_gets
  drain_gets-Track puts = Leads-read _ λ s (h, g).
      let lg = s.pending_gets in
      Turns-bind (Track q K x y c lg puts puts lg puts []) _ _
        (Turns-modify _ λ r e. rw e (record {
          local = h.local;
          peer = rw (sym g) h.peer;
          base = rw (sym g) h.base;
          puts_owed = rw (sym g) h.puts_owed;
          gets_owed = h.gets_owed;
          puts_are = g;
          gets_are = refl;
        }))
        λ _.
          Turns-bind (Track q K x y c lg puts puts lg puts []) _ _
            (Turns-keep _ (λ s h. tt) (receive_get_window-Keeps env false lg))
            λ _. install_get_jobs-Track lg puts puts []

  pub drain_gets-Now : Leads (Now q K x y c) (Now q K x y c) (drain_gets env)
  drain_gets-Now = Leads-from _ λ s h.
      Turns-weaken _ _ (λ r e. rw e (h, refl))
        (Turns-then (drain_gets-Track s.pending_puts) (Track→Now [] s.pending_puts))
