-- ===== src/Round/Windows.antt =====
-- The windows of a round of crates/rowd-core/src/sync.rs against the limits of their receiver.
pub mod Sides
mod Fair
use rowd.Base.{
  ℕ, suc, ◌+◌, ◌≤◌, ◌<◌, Text, Map, lookup, Option, none, some, Bool, true, false, not, ◌||◌, ◌==◌,
  ltb, List, [], ◌∷◌, ◌++◌, length, length-append, Result, ok, err, ◌≡◌, ◌≢◌, refl, arith,
  Bool-cases, inl, inr,
}
use rowd.Config.{SyncMode, RemapPolicy, pc, android, compare}
use rowd.Model.{Entry, Manifest, hash_of, reconcile, opt_eq}
use rowd.Model.Actions.{Action, to_pc, to_android, conflict}
use rowd.Round.{
  Round, Halt, begin, max_in_flight_files, max_staged_bytes, saturating_add, too_many_staged_files,
  too_many_staged_bytes, unwrapped_none,
}
use rowd.Round.Exec.{
  Keeps, Keeps-pure, Keeps-branch, Keeps-inspect, Keeps-when, Keeps-modify, Keeps-bind,
  Keeps-unwrap, Halts, inspect, when, ◌>>=◌,
}
use rowd.Round.Turns.{
  Turns, Turns-keep, Turns-bind, Turns-modify, Turns-inspect, Turns-branch, Turns-weaken,
  Turns-then, Keeps-turn, when-Ends,
}
use rowd.Round.Decide.{Decision, decide, bootstrap_of, action_of}
use rowd.Round.Transfer.{Env}
use rowd.Round.Loop.{
  flush_puts, flush_gets, settle, finish_put, send_put, finish_get, send_get, keep_both, perform,
  forbid, allow, carry_out, visit, visit_all, coordinate,
}
use Sides.{Present, decide-Present}
use Fair.{
  IsFair, Bounded, total_puts, total_gets, total_puts-append, total_gets-append,
  snapshot_local-Fair, remote_snapshot-Fair, install_local-Fair, remote_install-Fair,
  commit_base-Fair, flush_puts-Turns, flush_gets-Turns, acknowledge-Fair, flush_ack_batch-Fair,
}

module _ (env : Env) where
  abbrev pub Within : Round → Type 0
  Within = Bounded max_in_flight_files max_staged_bytes max_in_flight_files max_staged_bytes

  -- There is room for one more file of `size` bytes, if it goes into the window at all.
  abbrev PutRoom : ℕ → Round → Type 0
  PutRoom size r =
      Within r
      × (length r.pending_puts < max_in_flight_files)
      × (size ≤ max_staged_bytes → r.put_bytes + size ≤ max_staged_bytes)

  abbrev GetRoom : ℕ → Round → Type 0
  GetRoom size r =
      Within r
      × (length r.pending_gets < max_in_flight_files)
      × (size ≤ max_staged_bytes → r.get_bytes + size ≤ max_staged_bytes)

  widen :
      (k m l n : ℕ) (r : Round)
      → k ≤ max_in_flight_files
      → m ≤ max_staged_bytes
      → l ≤ max_in_flight_files
      → n ≤ max_staged_bytes
      → Bounded k m l n r
      → Within r
  widen k m l n r a b c d h = ground arith

  puts :
      Turns IsFair Within Within (Bounded 0 0 max_in_flight_files max_staged_bytes) (flush_puts env)
  puts = flush_puts-Turns env _ _ _ _ (omega arith) (omega arith)

  gets :
      Turns IsFair Within Within (Bounded max_in_flight_files max_staged_bytes 0 0) (flush_gets env)
  gets = flush_gets-Turns env _ _ _ _

  flush_puts-Fair : Keeps IsFair Within (flush_puts env)
  flush_puts-Fair = Keeps-turn _ (
      Turns-then puts
        λ r h. widen 0 0 _ _ r (omega arith) (omega arith) (omega arith) (omega arith) h)

  flush_gets-Fair : Keeps IsFair Within (flush_gets env)
  flush_gets-Fair = Keeps-turn _ (
      Turns-then gets
        λ r h. widen _ _ 0 0 r (omega arith) (omega arith) (omega arith) (omega arith) h)

  settle-Fair : (path : Text) (p : Option Entry) → Keeps IsFair Within (settle env path p)
  unfolding settle
  settle-Fair path none = Keeps-modify _ λ r h. assumption
  settle-Fair path (some p) =
      Keeps-bind _ _ (acknowledge-Fair env _ _ _ _ path p) λ _. Keeps-modify _ λ r h. assumption

  empty-PutRoom :
      (size : ℕ) (r : Round) → Bounded 0 0 max_in_flight_files max_staged_bytes r → PutRoom size r
  empty-PutRoom size r h = (
    widen 0 0 _ _ r (omega arith) (omega arith) (omega arith) (omega arith) h,
    omega arith,
    λ fit. omega arith,
  )

  empty-GetRoom :
      (size : ℕ) (r : Round) → Bounded max_in_flight_files max_staged_bytes 0 0 r → GetRoom size r
  empty-GetRoom size r h = (
    widen _ _ 0 0 r (omega arith) (omega arith) (omega arith) (omega arith) h,
    omega arith,
    λ fit. omega arith,
  )

  drain-PutRoom :
      (size : ℕ)
      → Turns IsFair Within Within (PutRoom size) (
          inspect λ s.
            when
              (length s.pending_puts == max_in_flight_files
                || ltb max_staged_bytes (saturating_add s.put_bytes size))
              (flush_puts env))
  drain-PutRoom size = Turns-inspect _ λ s h.
      when-Ends IsFair Within (PutRoom size) _ (flush_puts env) s
        (λ _. (Turns-then puts (empty-PutRoom size)).at s h)
        (λ fits. (h, ground arith, ground arith))

  finish_put-Turns :
      (path : Text) (ah : Option Text) (p : Entry)
      → Turns IsFair Within (PutRoom p.size) Within (finish_put env path ah p)
  unfolding finish_put total_puts
  finish_put-Turns path ah p =
      Turns-branch _ _ _
        (λ _.
          Turns-weaken Within _ (λ s h. h.0)
            (Turns-keep _ (λ s h. h)
              (Keeps-bind _ _ (remote_install-Fair env _ _ _ _ path ah p)
                λ _. commit_base-Fair env _ _ _ _ path p)))
        λ small. Turns-modify _ λ r h. record {
          put_files = omega (
            arith,
            length-append {0} r.pending_puts
                (record { path = path; entry = p; expected = ah } ∷ []),
          );
          put_total = omega (
            arith,
            total_puts-append r.pending_puts
                (record { path = path; entry = p; expected = ah } ∷ []),
          );
          put_limit = h.2 (ground arith);
          get_files = h.0.get_files;
          get_total = h.0.get_total;
          get_limit = h.0.get_limit;
        }

  drain-GetRoom :
      (size : ℕ)
      → Turns IsFair Within Within (GetRoom size) (
          inspect λ s.
            when
              (length s.pending_gets == max_in_flight_files
                || ltb max_staged_bytes (saturating_add s.get_bytes size))
              (flush_gets env))
  drain-GetRoom size = Turns-inspect _ λ s h.
      when-Ends IsFair Within (GetRoom size) _ (flush_gets env) s
        (λ _. (Turns-then gets (empty-GetRoom size)).at s h)
        (λ fits. (h, ground arith, ground arith))

  finish_get-Turns :
      (path : Text) (ph : Option Text) (a : Entry)
      → Turns IsFair Within (GetRoom a.size) Within (finish_get env path ph a)
  unfolding finish_get total_gets
  finish_get-Turns path ph a =
      Turns-branch _ _ _
        (λ _.
          Turns-weaken Within _ (λ s h. h.0)
            (Turns-keep _ (λ s h. h)
              (Keeps-bind _ _ (remote_snapshot-Fair env _ _ _ _ path a) λ _.
                Keeps-bind _ _ (install_local-Fair env _ _ _ _ path ph a) λ _.
                  Keeps-bind _ _ (acknowledge-Fair env _ _ _ _ path a)
                    λ _. commit_base-Fair env _ _ _ _ path a)))
        λ small. Turns-modify _ λ r h. record {
          put_files = h.0.put_files;
          put_total = h.0.put_total;
          put_limit = h.0.put_limit;
          get_files = omega (
            arith,
            length-append {0} r.pending_gets
                (record { path = path; entry = a; expected = ph } ∷ []),
          );
          get_total = omega (
            arith,
            total_gets-append r.pending_gets
                (record { path = path; entry = a; expected = ph } ∷ []),
          );
          get_limit = h.2 (ground arith);
        }

  send_get-Fair :
      (path : Text) (ph : Option Text) (a : Entry) → Keeps IsFair Within (send_get env path ph a)
  unfolding send_get
  send_get-Fair path ph a =
      Keeps-turn _
        (Turns-bind (GetRoom a.size) _ _ (drain-GetRoom a.size) λ _. finish_get-Turns path ph a)

  send_put-Fair :
      (path : Text) (ah : Option Text) (p : Entry) → Keeps IsFair Within (send_put env path ah p)
  unfolding send_put
  send_put-Fair path ah p = Keeps-turn _ (
      Turns-bind (PutRoom p.size) _ _ (drain-PutRoom p.size) λ _.
        Turns-bind (PutRoom p.size) _ _ (Turns-keep _ (λ s h. h.0) (snapshot_local-Fair env path p))
          λ _. finish_put-Turns path ah p)

  keep_both-Fair : (path : Text) (p a : Entry) → Keeps IsFair Within (keep_both env path p a)
  unfolding keep_both
  keep_both-Fair path p a = Keeps-bind _ _ (snapshot_local-Fair env path p) λ _.
      Keeps-bind _ _ (remote_snapshot-Fair env _ _ _ _ path a) λ _.
        Keeps-bind _ _ (install_local-Fair env _ _ _ _ _ none a) λ _.
          Keeps-bind _ _ (remote_install-Fair env _ _ _ _ _ none a) λ _.
            Keeps-bind _ _ (remote_install-Fair env _ _ _ _ path (some a.hash) p)
              λ _. Keeps-modify _ λ r h. assumption

  perform-Fair :
      (action : Action) (path : Text) (p a : Option Entry)
      → Present action p a
      → Keeps IsFair Within (perform env action path p a)
  unfolding perform ◌>>=◌
  perform-Fair Action.none path p a n = settle-Fair path p
  perform-Fair to_android path none a n = absurd (n refl)
  perform-Fair to_android path (some p) a n = send_put-Fair path (hash_of a) p
  perform-Fair to_pc path p none n = absurd (n refl)
  perform-Fair to_pc path p (some a) n = send_get-Fair path (hash_of p) a
  perform-Fair conflict path none a n = absurd (n.0 refl)
  perform-Fair conflict path (some p) none n = absurd (n.1 refl)
  perform-Fair conflict path (some p) (some a) n = keep_both-Fair path p a

  carry_out-Fair :
      (d : Decision) (path : Text) (p a : Option Entry)
      → Present d.action p a
      → Keeps IsFair Within (carry_out env d path p a)
  unfolding carry_out forbid allow
  carry_out-Fair d path p a n =
      Keeps-bind _ _ (Keeps-inspect _ λ s h. Keeps-when _ _ λ _. flush_puts-Fair) λ _.
        Keeps-bind _ _ (Keeps-inspect _ λ s h. Keeps-when _ _ λ _. flush_gets-Fair) λ _.
          Keeps-branch _ _ _ (λ _. Keeps-modify _ λ r h. assumption)
            λ _.
              Keeps-bind _ _ (Keeps-when _ _ λ _. Keeps-modify _ λ r h. assumption)
                λ _. perform-Fair d.action path p a n

  visit_all-Fair : (paths : List Text) → Keeps IsFair Within (visit_all env paths)
  unfolding visit_all visit
  visit_all-Fair [] = Keeps-pure tt
  visit_all-Fair (path ∷ paths) =
      Keeps-bind _ _
        (Keeps-branch _ _ _ (λ _. Keeps-pure tt)
          λ _. Keeps-inspect _ λ s h. carry_out-Fair _ path _ _ (
            decide-Present env.mode env.remap (lookup path s.base) (lookup path env.pc)
              (lookup path env.android)))
        λ _. visit_all-Fair paths

  coordinate-Fair : (paths : List Text) → Keeps IsFair Within (coordinate env paths)
  unfolding coordinate
  coordinate-Fair paths = Keeps-bind _ _ (visit_all-Fair paths) λ _.
      Keeps-bind _ _ flush_puts-Fair
        λ _. Keeps-bind _ _ flush_gets-Fair λ _. flush_ack_batch-Fair env _ _ _ _

no_halt :
    (r : Result Halt (Unit {0}))
    → Halts IsFair r
    → (r ≢ err too_many_staged_files) × (r ≢ err too_many_staged_bytes) × (r ≢ err unwrapped_none)
no_halt (ok u) f = (λ e. cc, λ e. cc, λ e. cc)
no_halt (err h) f = (λ e. f.files (cc), λ e. f.bytes (cc), λ e. f.present (cc))

-- Whatever the manifests, sizes, modes and policies are, a round never ends because the phone finds
-- too many staged files or bytes in a batch, nor by unwrapping the entry of a side that lacks the
-- file; and at its end no window holds more than four files or eight MiB.
pub coordinate-IsFair :
    (env : Env) (paths : List Text) (base : Map Text) (conflicts : Map (Unit {0}))
    (local peer : Manifest)
    → let r = coordinate env paths (begin base conflicts local peer) in
      Within env r.1
      × (r.0 ≢ err too_many_staged_files)
      × (r.0 ≢ err too_many_staged_bytes)
      × (r.0 ≢ err unwrapped_none)
unfolding begin total_puts total_gets
coordinate-IsFair env paths base conflicts local peer =
    let (b, f) = (coordinate-Fair env paths).at (begin base conflicts local peer) (omega arith) in
    let (files, bytes, present) = no_halt _ f in (b, files, bytes, present)
