-- ===== src/Round/Loop.antt =====
-- The loop of `coordinate_candidate` in crates/rowd-core/src/sync.rs over the paths of a round whose
-- manifests are complete: no hash stream is open (a round without a delta opens one, and its files
-- are staged and installed in other branches of the loop), the base has no entries of the legacy
-- digest, and the optional prefetch and overlap pipelines are off, as they are unless an environment
-- variable turns them on.
use rowd.Base.{
  ◌+◌, Text, lookup, insert, remove, Option, none, some, Bool, true, false, not, ◌&&◌, ◌||◌, ◌==◌,
  ltb, List, [], ◌∷◌, ◌++◌, length,
}
use rowd.Model.{Entry, hash_of}
use rowd.Model.Actions.{Action, to_pc, to_android, conflict}
use rowd.Model.Conflicts.{conflict_path, conflict_folder, starts_with}
use rowd.Round.{Round, max_in_flight_files, max_staged_bytes, saturating_add}
use rowd.Round.Exec.{Exec, pure, modify, when, branch, unwrap, inspect, ◌>>=◌, ◌>>◌}
use rowd.Round.Decide.{Decision, decide}
use rowd.Round.Transfer.{
  Env, install_local, snapshot_local, remote_snapshot, remote_install, drain_puts, drain_gets,
  acknowledge, flush_ack_batch, commit_base, filled,
}

-- `action != Action::ToAndroid`, `action != Action::ToPc`, `action != Action::Conflict`
abbrev is_to_android : Action → Bool
is_to_android to_android = true
is_to_android _ = false

abbrev pub is_to_pc : Action → Bool
is_to_pc to_pc = true
is_to_pc _ = false

abbrev is_conflict : Action → Bool
is_conflict conflict = true
is_conflict _ = false

module _ (env : Env) where
  unfoldable pub flush_puts : Exec (Unit {0})
  flush_puts = drain_puts env >> modify (λ r. record r { put_bytes = 0 })

  unfoldable pub flush_gets : Exec (Unit {0})
  flush_gets = drain_gets env >> modify (λ r. record r { get_bytes = 0 })

  -- The files already agree.
  unfoldable pub settle : Text → Option Entry → Exec (Unit {0})
  settle path none = modify λ r. record r { base = remove path r.base }
  settle path (some p) = do
    acknowledge env path p
    modify (λ r. record r { base = insert path p.hash r.base })

  unfoldable pub finish_put : Text → Option Text → Entry → Exec (Unit {0})
  finish_put path ah p =
      branch (ltb max_staged_bytes p.size)
        (remote_install env path ah p >> modify (commit_base env path p))
        (modify λ r. record r {
          put_bytes = r.put_bytes + p.size;
          pending_puts = r.pending_puts ++ record { path = path; entry = p; expected = ah } ∷ [];
        })

  unfoldable pub send_put : Text → Option Text → Entry → Exec (Unit {0})
  unfolding flush_puts finish_put
  send_put path ah p = do
    inspect λ s.
        when
          (length s.pending_puts == max_in_flight_files
            || ltb max_staged_bytes (saturating_add s.put_bytes p.size))
          flush_puts
    snapshot_local env path p
    finish_put path ah p

  unfoldable pub finish_get : Text → Option Text → Entry → Exec (Unit {0})
  finish_get path ph a =
      branch (ltb max_staged_bytes a.size)
        (do
          remote_snapshot env path a
          install_local env path ph a
          acknowledge env path a
          modify (commit_base env path a))
        (modify λ r. record r {
          get_bytes = r.get_bytes + a.size;
          pending_gets = r.pending_gets ++ record { path = path; entry = a; expected = ph } ∷ [];
        })

  unfoldable pub send_get : Text → Option Text → Entry → Exec (Unit {0})
  unfolding flush_gets finish_get
  send_get path ph a = do
    inspect λ s.
        when
          (length s.pending_gets == max_in_flight_files
            || ltb max_staged_bytes (saturating_add s.get_bytes a.size))
          flush_gets
    finish_get path ph a

  -- Both versions survive: the phone's goes to the conflict folder of both devices first.
  unfoldable pub keep_both : Text → Entry → Entry → Exec (Unit {0})
  keep_both path p a = do
    snapshot_local env path p
    remote_snapshot env path a
    let copy = conflict_path env.digest path a.hash
    install_local env copy none a
    remote_install env copy none a
    remote_install env path (some a.hash) p
    modify (λ r. record r {
      conflicts = insert copy tt r.conflicts;
      base = insert path p.hash (insert copy a.hash r.base);
      conflict_count = r.conflict_count + 1;
      transferred = r.transferred + 3;
    })

  unfoldable pub perform : Action → Text → Option Entry → Option Entry → Exec (Unit {0})
  unfolding settle send_put send_get keep_both
  perform Action.none path p a = settle path p
  perform to_android path p a = unwrap p >>= λ e. send_put path (hash_of a) e
  perform to_pc path p a = unwrap a >>= λ e. send_get path (hash_of p) e
  perform conflict path p a = unwrap p >>= λ e. unwrap a >>= λ d. keep_both path e d

  unfoldable pub forbid : Text → Exec (Unit {0})
  forbid path = modify λ r. record r {
    conflicts = insert path tt r.conflicts;
    conflict_count = r.conflict_count + 1;
  }

  abbrev unmark : Text → Round → Round
  unmark path r = record r { conflicts = remove path r.conflicts }

  unfoldable pub allow : Action → Text → Option Entry → Option Entry → Exec (Unit {0})
  unfolding perform
  allow action path p a = do
    when (not (is_conflict action) && not (starts_with path conflict_folder)) (modify (unmark path))
    perform action path p a

  -- One path, for the decision that was made for it.
  unfoldable pub carry_out : Decision → Text → Option Entry → Option Entry → Exec (Unit {0})
  unfolding flush_puts flush_gets forbid allow
  carry_out d path p a = do
    inspect λ s.
        when (filled s.pending_puts && (not (is_to_android d.action) || d.prohibited)) flush_puts
    inspect
        λ s. when (filled s.pending_gets && (not (is_to_pc d.action) || d.prohibited)) flush_gets
    branch d.prohibited (forbid path) (allow d.action path p a)

  unfoldable pub visit : Text → Exec (Unit {0})
  unfolding carry_out
  visit path =
      let p = lookup path env.pc in
      let a = lookup path env.android in
      branch (env.excluded path) (pure tt)
        (inspect λ s. carry_out (decide env.mode env.remap (lookup path s.base) p a) path p a)

  unfoldable pub visit_all : List Text → Exec (Unit {0})
  unfolding visit
  visit_all [] = pure tt
  visit_all (path ∷ paths) = visit path >> visit_all paths

  -- The whole loop, the last windows and acknowledgements included.
  unfoldable pub coordinate : List Text → Exec (Unit {0})
  unfolding visit_all flush_puts flush_gets
  coordinate paths = do visit_all paths; flush_puts; flush_gets; flush_ack_batch env
