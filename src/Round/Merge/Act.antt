-- ===== src/Round/Merge/Act.antt =====
-- What a round of crates/rowd-core/src/sync.rs does with one path, where it returns.
use rowd.Base.{
  ℕ, Map, Text, lookup-insert, lookup-remove, insert, text_eq, text_eq_iff, Option, none, some, ◌≡◌,
  ◌≢◌, refl, true,
}
use rowd.Model.{Entry, hash_of}
use rowd.Model.Actions.{Action, to_pc, to_android, conflict}
use rowd.Model.Conflicts.{conflict_path}
use rowd.Round.{Round}
use rowd.Round.Turns.{Turns-bind, Turns-keep, Turns-modify, Turns-then, Turns-weaken, Turns-branch}
use rowd.Round.Decide.{Decision}
use rowd.Round.Transfer.{Env, acknowledge, commit_base, install_local, remote_install}
use rowd.Round.Loop.{
  settle, finish_put, send_put, finish_get, send_get, keep_both, perform, forbid, allow, carry_out,
}
use rowd.Round.Merge.{Versions, performed, merged}
use rowd.Round.Merge.Leads.{
  Leads, Leads-when, Leads-inspect, Leads-unwrap, install_local-Leads, remote_install-Leads,
}
use rowd.Round.Merge.Track.{Now, acknowledge-Keeps}
use rowd.Round.Merge.Here.{Free, Now→Free, Free→Now, put-Now, get-Now}
use rowd.Round.Merge.Elsewhere.{
  flush_puts-Now, flush_gets-Now, snapshot_local-Keeps, remote_snapshot-Keeps, text_eq_other,
}

text_eq_self : (q : Text) → text_eq q q ≡ true
text_eq_self q = (text_eq_iff q q).1 refl

conflicts-Free :
    (q : Text) {x y : Option Entry} {c : Option Text} (conflicts : Map (Unit {0})) (n : ℕ)
    (r : Round)
    → Free q x y c r
    → Free q x y c (record r { conflicts = conflicts; conflict_count = n })
conflicts-Free q conflicts n r h = record {
  local = h.local;
  peer = h.peer;
  base = h.base;
  puts = h.puts;
  gets = h.gets;
}

module _ (env : Env) (q : Text) {x y : Option Entry} {c : Option Text} where
  install_local-Free :
      (expected : Option Text) (entry : Entry)
      → Leads (Free q x y c) (Free q (some entry) y c) (install_local env q expected entry)
  install_local-Free expected entry = install_local-Leads env q expected entry λ s files h i.
      record {
        local = rw (i q, text_eq_self q) refl;
        peer = h.peer;
        base = h.base;
        puts = h.puts;
        gets = h.gets;
      }

  remote_install-Free :
      (expected : Option Text) (entry : Entry)
      → Leads (Free q x y c) (Free q x (some entry) c) (remote_install env q expected entry)
  remote_install-Free expected entry = remote_install-Leads env q expected entry λ s files h i.
      record {
        local = h.local;
        peer = rw (i q, text_eq_self q) refl;
        base = h.base;
        puts = h.puts;
        gets = h.gets;
      }

  -- A file elsewhere.
  install_local-away :
      (path : Text) (expected : Option Text) (entry : Entry)
      → path ≢ q
      → Leads (Free q x y c) (Free q x y c) (install_local env path expected entry)
  install_local-away path expected entry n =
      install_local-Leads env path expected entry λ s files h i. record {
        local = rw (i q, text_eq_other path q n) h.local;
        peer = h.peer;
        base = h.base;
        puts = h.puts;
        gets = h.gets;
      }

  remote_install-away :
      (path : Text) (expected : Option Text) (entry : Entry)
      → path ≢ q
      → Leads (Free q x y c) (Free q x y c) (remote_install env path expected entry)
  remote_install-away path expected entry n =
      remote_install-Leads env path expected entry λ s files h i. record {
        local = h.local;
        peer = rw (i q, text_eq_other path q n) h.peer;
        base = h.base;
        puts = h.puts;
        gets = h.gets;
      }

  acknowledged :
      (path : Text) (entry : Entry)
      → Leads (Free q x y c) (Free q x y c) (acknowledge env path entry)
  acknowledged path entry =
      Turns-keep _ (λ s h. tt)
        (acknowledge-Keeps env path entry λ r batch n h. record {
          local = h.local;
          peer = h.peer;
          base = h.base;
          puts = h.puts;
          gets = h.gets;
        })

  commit-Free :
      (entry : Entry) (r : Round)
      → Free q x y c r
      → Free q x y (some entry.hash) (commit_base env q entry r)
  unfolding commit_base
  commit-Free entry r h = record {
    local = h.local;
    peer = h.peer;
    base = rw (lookup-insert q q entry.hash r.base, text_eq_self q) refl;
    puts = h.puts;
    gets = h.gets;
  }

module _ (env : Env) (q : Text) {x y : Option Entry} {c : Option Text} where
  settle-Free : (p : Option Entry) → Leads (Free q x y c) (Free q x y (hash_of p)) (settle env q p)
  unfolding settle
  settle-Free none = Turns-modify _ λ r h. record {
    local = h.local;
    peer = h.peer;
    base = rw (lookup-remove q q r.base, text_eq_self q) refl;
    puts = h.puts;
    gets = h.gets;
  }
  settle-Free (some p) = Turns-bind _ _ _ (acknowledged env q q p) λ _. Turns-modify _ λ r h.
      record {
        local = h.local;
        peer = h.peer;
        base = rw (lookup-insert q q p.hash r.base, text_eq_self q) refl;
        puts = h.puts;
        gets = h.gets;
      }

  finish_put-Now :
      (ah : Option Text) (e : Entry)
      → Leads (Free q x y c) (Now q Unit x (some e) (some e.hash)) (finish_put env q ah e)
  unfolding finish_put
  finish_put-Now ah e =
      Turns-branch _ _ _
        (λ _.
          Turns-bind (Free q x (some e) c) _ _ (remote_install-Free env q ah e)
            λ _. Turns-modify _ λ r h. Free→Now q _ (commit-Free env q e r h))
        λ _. Turns-modify _ λ r h. put-Now q _ r _ refl h

  finish_get-Now :
      (ph : Option Text) (e : Entry)
      → Leads (Free q x y c) (Now q Unit (some e) y (some e.hash)) (finish_get env q ph e)
  unfolding finish_get
  finish_get-Now ph e =
      Turns-branch _ _ _
        (λ _.
          Turns-bind (Free q x y c) _ _ (Turns-keep _ (λ s h. tt) (remote_snapshot-Keeps env q e))
            λ _. Turns-bind (Free q (some e) y c) _ _ (install_local-Free env q ph e) λ _.
              Turns-bind (Free q (some e) y c) _ _ (acknowledged env q q e)
                λ _. Turns-modify _ λ r h. Free→Now q _ (commit-Free env q e r h))
        λ _. Turns-modify _ λ r h. get-Now q _ r _ refl h

  send_put-Now :
      (ah : Option Text) (e : Entry)
      → Leads (Now q ⊥ x y c) (Now q Unit x (some e) (some e.hash)) (send_put env q ah e)
  unfolding send_put
  send_put-Now ah e =
      Turns-bind (Now q ⊥ x y c) _ _
        (Leads-inspect _ λ s h. Leads-when _ _ (λ _. flush_puts-Now env q ⊥ x y c) λ _ r k. k)
        λ _.
          Turns-bind (Now q ⊥ x y c) _ _ (Turns-keep _ (λ s h. tt) (snapshot_local-Keeps env q e))
            λ _. Turns-weaken _ _ (Now→Free q) (finish_put-Now ah e)

  send_get-Now :
      (ph : Option Text) (e : Entry)
      → Leads (Now q ⊥ x y c) (Now q Unit (some e) y (some e.hash)) (send_get env q ph e)
  unfolding send_get
  send_get-Now ph e =
      Turns-bind (Now q ⊥ x y c) _ _
        (Leads-inspect _ λ s h. Leads-when _ _ (λ _. flush_gets-Now env q ⊥ x y c) λ _ r k. k)
        λ _. Turns-weaken _ _ (Now→Free q) (finish_get-Now ph e)

module _ (env : Env) (q : Text) (elsewhere : (p h : Text) → conflict_path env.digest p h ≢ q) where
  keep_both-Now :
      (p a : Entry) {c : Option Text}
      → Leads
          (Free q (some p) (some a) c)
          (Now q Unit (some p) (some p) (some p.hash))
          (keep_both env q p a)
  unfolding keep_both
  keep_both-Now p a {c} =
      let copy = conflict_path env.digest q a.hash in
      let away : copy ≢ q = elsewhere q a.hash in
      Turns-bind (Free q (some p) (some a) c) _ _
        (Turns-keep _ (λ s h. tt) (snapshot_local-Keeps env q p))
        λ _.
          Turns-bind (Free q (some p) (some a) c) _ _
            (Turns-keep _ (λ s h. tt) (remote_snapshot-Keeps env q a))
            λ _.
              Turns-bind (Free q (some p) (some a) c) _ _
                (install_local-away env q copy none a away)
                λ _.
                  Turns-bind (Free q (some p) (some a) c) _ _
                    (remote_install-away env q copy none a away)
                    λ _.
                      Turns-bind (Free q (some p) (some p) c) _ _
                        (remote_install-Free env q (some a.hash) p)
                        λ _. Turns-modify _ λ r h. Free→Now q _ (record {
                          local = h.local;
                          peer = h.peer;
                          base =
                              rw
                                (
                                  lookup-insert q q p.hash (insert copy a.hash r.base),
                                  text_eq_self q,
                                )
                                refl;
                          puts = h.puts;
                          gets = h.gets;
                        })

  -- What is due of `q` after it was visited.
  abbrev pub Done : Versions → Round → Type 0
  Done v = Now q Unit v.on_pc v.on_phone v.committed

  perform-Done :
      (action : Action) (p a : Option Entry) {c : Option Text}
      → Leads (Now q ⊥ p a c) (Done (performed action p a)) (perform env action q p a)
  unfolding perform performed
  perform-Done Action.none p a =
      Turns-weaken _ _ (Now→Free q) (Turns-then (settle-Free env q p) (Free→Now q))
  perform-Done to_android p a = Leads-unwrap _ _ λ e at. rw at (send_put-Now env q (hash_of a) e)
  perform-Done to_pc p a = Leads-unwrap _ _ λ e at. rw at (send_get-Now env q (hash_of p) e)
  perform-Done conflict p a = Leads-unwrap _ _ λ e at.
      Leads-unwrap _ _ λ d there. rw (at, there) (Turns-weaken _ _ (Now→Free q) (keep_both-Now e d))

  pub carry_out-Done :
      (d : Decision) (p a : Option Entry) {b : Option Text}
      → Leads (Now q ⊥ p a b) (Done (merged d p a b)) (carry_out env d q p a)
  unfolding carry_out forbid allow merged
  carry_out-Done d p a {b} =
      Turns-bind (Now q ⊥ p a b) _ _
        (Leads-inspect _ λ s h. Leads-when _ _ (λ _. flush_puts-Now env q ⊥ p a b) λ _ r k. k)
        λ _.
          Turns-bind (Now q ⊥ p a b) _ _
            (Leads-inspect _ λ s h. Leads-when _ _ (λ _. flush_gets-Now env q ⊥ p a b) λ _ r k. k)
            λ _.
              Turns-branch _ _ _
                (λ on.
                  rw on
                    (Turns-modify _ λ r h. Free→Now q _ (conflicts-Free q _ _ r (Now→Free q r h))))
                λ off. rw off (
                  Turns-bind (Now q ⊥ p a b) _ _
                    (Leads-when _ _ (λ _. Turns-modify _ λ r h. assumption) λ _ r k. k)
                    λ _. perform-Done d.action p a)
