-- ===== src/Round/Merge/Whole.antt =====
-- What a round of crates/rowd-core/src/sync.rs that returns makes of each path.
use rowd.Base.{
  Text, Map, lookup, Option, List, [], ◌∷◌, text_eq, text_eq_iff, Bool-cases, inl, inr, false,
  Result, ok, err, ◌≡◌, ◌≢◌, refl, sym, ◌⊎◌,
}
use rowd.Model.Conflicts.{conflict_path, conflict_path-starts_with, conflict_folder, starts_with}
use rowd.Round.{Round, Halt, begin}
use rowd.Round.Exec.{Any, ◌>>◌}
use rowd.Round.Turns.{
  Ends, Turns-bind, Turns-keep, Turns-modify, Turns-then, Turns-weaken, Turns-branch,
}
use rowd.Round.Decide.{decide}
use rowd.Round.Edits.{Distinct}
use rowd.Round.Transfer.{Env, flush_ack_batch}
use rowd.Round.Loop.{visit, visit_all, coordinate, flush_puts, flush_gets}
use rowd.Round.Merge.{Versions, merged}
use rowd.Round.Merge.Due.{due}
use rowd.Round.Merge.Leads.{Leads, Leads-from, Leads-inspect, Always}
use rowd.Round.Merge.Track.{Now, Track, flush_ack_batch-Keeps}
use rowd.Round.Merge.Drains.{Track→Now, drain_puts-Track, drain_gets-Track}
use rowd.Round.Merge.Others.{visit-Now, visit_all-Now}
use rowd.Round.Merge.Here.{Now→Free}
use rowd.Round.Merge.Act.{Done, carry_out-Done}

abbrev pub Among : Text → List Text → Type 0
Among q [] = ⊥
Among q (path ∷ paths) = (path ≡ q) ⊎ Among q paths

abbrev pub versions : Text → Round → Versions
versions q r = record {
  on_pc = lookup q r.local;
  on_phone = lookup q r.peer;
  committed = lookup q r.base;
}

module _ (env : Env) (q : Text) (b : Option Text) (plain : env.excluded q ≡ false)
    (elsewhere : (p h : Text) → conflict_path env.digest p h ≢ q) where
  abbrev outcome : Versions
  outcome =
      let p = lookup q env.pc in
      let a = lookup q env.android in merged (decide env.mode env.remap b p a) p a b

  abbrev Waiting : Round → Type 0
  Waiting = Now q ⊥ (lookup q env.pc) (lookup q env.android) b

  abbrev After : Round → Type 0
  After = Done env q elsewhere outcome

  visit-Done : Leads Waiting After (visit env q)
  unfolding visit
  visit-Done = rw plain (
      Turns-branch _ _ _ (λ e. cc)
        λ _. Leads-inspect _ λ s h.
          rw ((Now→Free q s h).base)
            (carry_out-Done env q elsewhere _ (lookup q env.pc) (lookup q env.android)))

  visit_all-Done :
      (paths : List Text)
      → Distinct paths
      → Among q paths
      → Leads Waiting After (visit_all env paths)
  unfolding visit_all
  visit_all-Done [] d at = absurd at
  visit_all-Done (path ∷ paths) d at = elim (Bool-cases (text_eq path q)) [
    | inl e ↦
        let here : path ≡ q = (text_eq_iff path q).0 e in
        Turns-bind After _ _ (rw here visit-Done)
          λ _. visit_all-Now env q Unit _ _ _ elsewhere paths (rw (sym here) d.0)
    | inr e ↦
        let away : path ≢ q = (λ same. cc ((text_eq_iff path q).1 same)) in
        Turns-bind Waiting _ _ (visit-Now env q ⊥ _ _ _ elsewhere path away) λ _.
          visit_all-Done paths d.1 (elim at [ inl same ↦ absurd (away same) | inr later ↦ later ])
  ]

  abbrev Ended : Round → Type 0
  Ended r = versions q r ≡ outcome

  emptied :
      (r : Round)
      → Track q Unit outcome.on_pc outcome.on_phone outcome.committed [] [] [] [] [] [] r
      → Ended r
  unfolding due
  emptied r h =
      let pc : lookup q r.local ≡ outcome.on_pc = h.local in
      let phone : lookup q r.peer ≡ outcome.on_phone = h.peer in
      let base : lookup q r.base ≡ outcome.committed = h.base in rw (pc, phone, base) refl

  last : Leads After Ended (flush_puts env >> (flush_gets env >> flush_ack_batch env))
  unfolding flush_puts flush_gets
  last =
      Turns-bind (λ r. After r × (r.pending_puts ≡ [])) _ _
        (Leads-from _ λ s h.
          Turns-bind (λ r. After r × (r.pending_puts ≡ [])) _ _
            (Turns-weaken _ _ (λ r e. rw e (h, refl))
              (Turns-then (drain_puts-Track env q Unit _ _ _ s.pending_gets)
                λ r t. (Track→Now env q Unit _ _ _ s.pending_gets [] r t, t.puts_are)))
            λ _. Turns-modify _ λ r (k, e). ((assumption, e)))
        λ _.
          Turns-bind Ended _ _
            (Turns-bind Ended _ _ (Turns-then (drain_gets-Track env q Unit _ _ _ []) emptied)
              λ _. Turns-modify _ λ r e. e)
            λ _. Turns-keep _ (λ s h. tt) (flush_ack_batch-Keeps env λ r batch n e. e)

  coordinate-Done :
      (paths : List Text)
      → Distinct paths
      → Among q paths
      → Leads Waiting Ended (coordinate env paths)
  unfolding coordinate
  coordinate-Done paths d at = Turns-bind After _ _ (visit_all-Done paths d at) λ _. last

ended :
    (P : Round → Type 0) (r : Result Halt (Unit {0})) (s : Round)
    → Ends Any Always P r s
    → r ≡ ok tt
    → P s
ended P (ok u) s h e = h
ended P (err x) s h e = cc

-- When a round returns, each path that came up, is not excluded and is outside the conflict folder has on the PC, on the
-- phone and in the base what its decision makes of the three versions that the round began with, each path coming up once.
pub coordinate-merged :
    (env : Env) (paths : List Text) (base : Map Text) (conflicts : Map (Unit {0})) (q : Text)
    → Distinct paths
    → Among q paths
    → env.excluded q ≡ false
    → starts_with q conflict_folder ≡ false
    → (coordinate env paths (begin base conflicts env.pc env.android)).0 ≡ ok tt
    → let p = lookup q env.pc in
      let a = lookup q env.android in
      let b = lookup q base in
      versions q (coordinate env paths (begin base conflicts env.pc env.android)).1
      ≡ merged (decide env.mode env.remap b p a) p a b
unfolding begin due
coordinate-merged env paths base conflicts q d at plain outside returns =
    ended _ _ _
      ((coordinate-Done env q (lookup q base) plain elsewhere paths d at).at
        (begin base conflicts env.pc env.android)
        (record {
          local = refl;
          peer = refl;
          base = refl;
          puts_owed = tt;
          gets_owed = tt;
          puts_are = refl;
          gets_are = refl;
        }))
      returns
  where
    elsewhere : (p h : Text) → conflict_path env.digest p h ≢ q
    elsewhere p h at = cc (conflict_path-starts_with env.digest p h)
