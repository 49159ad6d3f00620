-- ===== src/Round/Merge/Others.antt =====
-- A round of crates/rowd-core/src/sync.rs at every path but one.
use rowd.Base.{
  Result, Text, lookup-insert, insert, Option, none, some, List, [], ◌∷◌, All, ◌≢◌, refl,
}
use rowd.Model.{Entry, hash_of}
use rowd.Model.Actions.{Action, to_pc, to_android, conflict}
use rowd.Model.Conflicts.{conflict_path}
use rowd.Round.{Round, Halt}
use rowd.Round.Turns.{Turns-bind, Turns-keep, Turns-modify, Turns-branch}
use rowd.Round.Decide.{Decision}
use rowd.Round.Transfer.{Env}
use rowd.Round.Loop.{keep_both, perform, forbid, allow, carry_out, visit, visit_all}
use rowd.Round.Merge.Leads.{Leads, Leads-pure, Leads-when, Leads-inspect, Leads-unwrap}
use rowd.Round.Merge.Track.{Now}
use rowd.Round.Merge.Elsewhere.{
  text_eq_other, snapshot_local-Keeps, remote_snapshot-Keeps, flush_puts-Now, flush_gets-Now,
  install_local-Now, remote_install-Now, settle-Now, send_put-Now, send_get-Now,
}

module _ (env : Env) (q : Text) (K : Type 0) (x y : Option Entry) (c : Option Text)
    (elsewhere : (p h : Text) → conflict_path env.digest p h ≢ q) where
  abbrev Stays {ℓ} : {A : Type ℓ} → (Round → Result Halt A × Round) → Type 0
  Stays m = Leads (Now q K x y c) (Now q K x y c) m

  keep_both-Now : (path : Text) (p a : Entry) → path ≢ q → Stays (keep_both env path p a)
  unfolding keep_both
  keep_both-Now path p a n =
      let copy = conflict_path env.digest path a.hash in
      let away : copy ≢ q = elsewhere path a.hash in
      Turns-bind (Now q K x y c) _ _ (Turns-keep _ (λ s h. tt) (snapshot_local-Keeps env path p))
        λ _.
          Turns-bind (Now q K x y c) _ _
            (Turns-keep _ (λ s h. tt) (remote_snapshot-Keeps env path a))
            λ _.
              Turns-bind (Now q K x y c) _ _ (install_local-Now env q K x y c copy none a away) λ _.
                Turns-bind (Now q K x y c) _ _ (remote_install-Now env q K x y c copy none a away)
                  λ _.
                    Turns-bind (Now q K x y c) _ _
                      (remote_install-Now env q K x y c path (some a.hash) p n)
                      λ _. Turns-modify _ λ r h. record {
                        local = h.local;
                        peer = h.peer;
                        base =
                            rw
                              (
                                lookup-insert path q p.hash (insert copy a.hash r.base),
                                text_eq_other path q n,
                                lookup-insert copy q a.hash r.base,
                                text_eq_other copy q away,
                              )
                              h.base;
                        puts_owed = h.puts_owed;
                        gets_owed = h.gets_owed;
                        puts_are = refl;
                        gets_are = refl;
                      }

  perform-Now :
      (action : Action) (path : Text) (p a : Option Entry)
      → path ≢ q
      → Stays (perform env action path p a)
  unfolding perform
  perform-Now Action.none path p a n = settle-Now env q K x y c path p n
  perform-Now to_android path p a n =
      Leads-unwrap _ _ λ e _. send_put-Now env q K x y c path (hash_of a) e n
  perform-Now to_pc path p a n =
      Leads-unwrap _ _ λ e _. send_get-Now env q K x y c path (hash_of p) e n
  perform-Now conflict path p a n =
      Leads-unwrap _ _ λ e _. Leads-unwrap _ _ λ d _. keep_both-Now path e d n

  carry_out-Now :
      (d : Decision) (path : Text) (p a : Option Entry)
      → path ≢ q
      → Stays (carry_out env d path p a)
  unfolding carry_out forbid allow
  carry_out-Now d path p a n =
      Turns-bind (Now q K x y c) _ _
        (Leads-inspect _ λ s h. Leads-when _ _ (λ _. flush_puts-Now env q K x y c) λ _ r k. k)
        λ _.
          Turns-bind (Now q K x y c) _ _
            (Leads-inspect _ λ s h. Leads-when _ _ (λ _. flush_gets-Now env q K x y c) λ _ r k. k)
            λ _.
              Turns-branch _ _ _ (λ _. Turns-modify _ λ r h. assumption)
                λ _.
                  Turns-bind (Now q K x y c) _ _
                    (Leads-when _ _ (λ _. Turns-modify _ λ r h. assumption) λ _ r k. k)
                    λ _. perform-Now d.action path p a n

  pub visit-Now : (path : Text) → path ≢ q → Stays (visit env path)
  unfolding visit
  visit-Now path n =
      Turns-branch _ _ _ (λ _. Leads-pure tt λ s h. h)
        λ _. Leads-inspect _ λ s h. carry_out-Now _ path _ _ n

  pub visit_all-Now :
      (paths : List Text) → All (λ path. path ≢ q) paths → Stays (visit_all env paths)
  unfolding visit_all
  visit_all-Now [] n = Leads-pure tt λ s h. h
  visit_all-Now (path ∷ paths) n =
      Turns-bind (Now q K x y c) _ _ (visit-Now path n.0) λ _. visit_all-Now paths n.1
