-- ===== src/Round/Edits/Actions.antt =====
-- What one path of the loop of crates/rowd-core/src/sync.rs leaves alone.
use rowd.Base.{
  Text, Option, none, some, arith, [], ◌∷◌, All-append, insert, lookup-insert, lookup-remove,
  text_eq_iff, ◌≡◌, ◌≢◌, refl, arith,
}
use rowd.Model.{Entry, hash_of}
use rowd.Model.Actions.{Action, to_pc, to_android, conflict}
use rowd.Model.Conflicts.{conflict_path}
use rowd.Round.{Round}
use rowd.Round.Exec.{
  Any, Keeps, Keeps-branch, Keeps-inspect, Keeps-when, Keeps-modify, Keeps-bind, Keeps-unwrap,
}
use rowd.Round.Decide.{Decision}
use rowd.Round.Transfer.{Env}
use rowd.Round.Loop.{
  flush_puts, flush_gets, settle, finish_put, send_put, finish_get, send_get, keep_both, perform,
  forbid, allow, carry_out,
}
use rowd.Round.Edits.Transfers.{
  Held, Spares, Foreign, install_local-Held, snapshot_local-Held, remote_snapshot-Held,
  remote_install-Held, drain_puts-Held, drain_gets-Held, acknowledge-Held, modify_base-Held,
}

module _ (env : Env) (W : Type 0) (q : Text) (b : Option Text) (e : Entry)
    (elsewhere : (p h : Text) → conflict_path env.digest p h ≢ q) where
  abbrev pub Held' : Round → Type 0
  Held' = Held env W q b e

  pub flush_puts-Held : Keeps Any Held' (flush_puts env)
  unfolding flush_puts
  flush_puts-Held =
      Keeps-bind _ _ (drain_puts-Held env W q b e) λ _. Keeps-modify _ λ r k. assumption

  pub flush_gets-Held : Keeps Any Held' (flush_gets env)
  unfolding flush_gets
  flush_gets-Held =
      Keeps-bind _ _ (drain_gets-Held env W q b e) λ _. Keeps-modify _ λ r k. assumption

  settle-Held :
      (path : Text) (p : Option Entry) → (W → path ≢ q) → Keeps Any Held' (settle env path p)
  unfolding settle
  settle-Held path none m = Keeps-modify _ λ r k. record {
    there = k.there;
    unread = λ w. ground (arith, lookup-remove path q r.base, text_eq_iff path q, m w, k.unread w);
    puts = k.puts;
    gets = k.gets;
  }
  settle-Held path (some p) m = Keeps-bind _ _ (acknowledge-Held env W q b e path p) λ _.
      Keeps-modify _ λ r k. record {
        there = k.there;
        unread = λ w.
            ground (arith, lookup-insert path q p.hash r.base, text_eq_iff path q, m w, k.unread w);
        puts = k.puts;
        gets = k.gets;
      }

  send_put-Held :
      (path : Text) (ah : Option Text) (p : Entry)
      → (W → path ≢ q)
      → Keeps Any Held' (send_put env path ah p)
  unfolding send_put
  send_put-Held path ah p m =
      Keeps-bind _ _ (Keeps-inspect _ λ s h. Keeps-when _ _ λ _. flush_puts-Held)
        λ _. Keeps-bind _ _ (snapshot_local-Held env W q b e path p) λ _. finish
    where
      finish : Keeps Any Held' (finish_put env path ah p)
      finish =
          Keeps-branch _ _ _
            (λ _.
              Keeps-bind _ _ (remote_install-Held env W q b e path ah p)
                λ _. modify_base-Held env W q b e path p m)
            λ _. Keeps-modify _ λ r k. record {
              there = k.there;
              unread = k.unread;
              puts =
                  All-append (Foreign env W q b e) r.pending_puts
                    (record { path = path; entry = p; expected = ah } ∷ []) k.puts (m, tt);
              gets = k.gets;
            }

  send_get-Held :
      (path : Text) (ph : Option Text) (a : Entry)
      → (W → path ≢ q)
      → (path ≡ q → ph ≢ some e.hash)
      → Keeps Any Held' (send_get env path ph a)
  unfolding send_get
  send_get-Held path ph a m n =
      Keeps-bind _ _ (Keeps-inspect _ λ s h. Keeps-when _ _ λ _. flush_gets-Held) λ _. finish
    where
      finish : Keeps Any Held' (finish_get env path ph a)
      finish =
          Keeps-branch _ _ _
            (λ _. Keeps-bind _ _ (remote_snapshot-Held env W q b e path a) λ _.
              Keeps-bind _ _ (install_local-Held env W q b e path ph a n) λ _.
                Keeps-bind _ _ (acknowledge-Held env W q b e path a)
                  λ _. modify_base-Held env W q b e path a m)
            λ _. Keeps-modify _ λ r k. record {
              there = k.there;
              unread = k.unread;
              puts = k.puts;
              gets =
                  All-append (Spares env W q b e) r.pending_gets
                    (record { path = path; entry = a; expected = ph } ∷ []) k.gets ((m, n), tt);
            }

  abbrev copy : Text → Entry → Text
  copy path a = conflict_path env.digest path a.hash

  keep_both-Held :
      (path : Text) (p a : Entry) → (W → path ≢ q) → Keeps Any Held' (keep_both env path p a)
  unfolding keep_both
  keep_both-Held path p a m = Keeps-bind _ _ (snapshot_local-Held env W q b e path p) λ _.
      Keeps-bind _ _ (remote_snapshot-Held env W q b e path a) λ _.
        Keeps-bind _ _
          (install_local-Held env W q b e _ none a λ at. absurd (elsewhere path a.hash at))
          λ _. Keeps-bind _ _ (remote_install-Held env W q b e _ none a) λ _.
            Keeps-bind _ _ (remote_install-Held env W q b e path (some a.hash) p) λ _.
              Keeps-modify _ λ r k. record {
                there = k.there;
                unread = λ w. ground (
                  arith,
                  lookup-insert path q p.hash (insert (copy path a) a.hash r.base),
                  lookup-insert (copy path a) q a.hash r.base,
                  text_eq_iff path q,
                  text_eq_iff (copy path a) q,
                  elsewhere path a.hash,
                  m w,
                  k.unread w,
                );
                puts = k.puts;
                gets = k.gets;
              }

  -- The PC's file is in danger only from a Get that expects it.
  perform-Held :
      (action : Action) (path : Text) (p a : Option Entry)
      → (W → path ≢ q)
      → (path ≡ q → action ≡ to_pc → hash_of p ≢ some e.hash)
      → Keeps Any Held' (perform env action path p a)
  unfolding perform
  perform-Held Action.none path p a m n = settle-Held path p m
  perform-Held to_android path p a m n =
      Keeps-unwrap p _ tt λ x _. send_put-Held path (hash_of a) x m
  perform-Held to_pc path p a m n =
      Keeps-unwrap a _ tt λ x _. send_get-Held path (hash_of p) x m λ at. n at refl
  perform-Held conflict path p a m n =
      Keeps-unwrap p _ tt λ x _. Keeps-unwrap a _ tt λ y _. keep_both-Held path x y m

  pub carry_out-Held :
      (d : Decision) (path : Text) (p a : Option Entry)
      → (W → path ≢ q)
      → (path ≡ q → d.action ≡ to_pc → hash_of p ≢ some e.hash)
      → Keeps Any Held' (carry_out env d path p a)
  unfolding carry_out forbid allow
  carry_out-Held d path p a m n =
      Keeps-bind _ _ (Keeps-inspect _ λ s h. Keeps-when _ _ λ _. flush_puts-Held) λ _.
        Keeps-bind _ _ (Keeps-inspect _ λ s h. Keeps-when _ _ λ _. flush_gets-Held) λ _.
          Keeps-branch _ _ _ (λ _. Keeps-modify _ λ r k. assumption)
            λ _.
              Keeps-bind _ _ (Keeps-when _ _ λ _. Keeps-modify _ λ r k. assumption)
                λ _. perform-Held d.action path p a m n
