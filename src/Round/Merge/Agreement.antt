-- ===== src/Round/Merge/Agreement.antt =====
-- The versions that a round of crates/rowd-core/src/sync.rs without a direction leaves.
use rowd.Base.{
  Text, Map, lookup, Option, none, some, List, Bool, true, false, Bool-cases, inl, inr, text_eq_iff,
  ok, ◌≡◌, ◌≢◌, subst, refl, sym, arith,
}
use rowd.Config.{bidirectional, RemapPolicy, pc, android, compare}
use rowd.Model.{Entry, hash_of, opt_eq, opt_eq_iff, reconcile}
use rowd.Model.Actions.{Action, to_pc, to_android, conflict}
use rowd.Model.Conflicts.{conflict_folder, starts_with}
use rowd.Round.{begin}
use rowd.Round.Decide.{decide, action_of, bootstrap_of}
use rowd.Round.Edits.{Distinct}
use rowd.Round.Transfer.{Env}
use rowd.Round.Loop.{coordinate}
use rowd.Round.Merge.{Versions, performed, merged}
use rowd.Round.Merge.Whole.{Among, coordinate-merged}

abbrev is_done : Action → Bool
is_done Action.none = true
is_done _ = false

reconcile-none : (base h k : Option Text) → is_done (reconcile base h k) ≡ true → h ≡ k
unfolding reconcile
reconcile-none base none none e = refl
reconcile-none base (some h) none e = cc
reconcile-none base none (some k) e = cc
reconcile-none base (some h) (some k) e = ground (arith, text_eq_iff h k)

remapped-moves :
    (policy : RemapPolicy) (base : Option Text) (p a : Entry)
    → opt_eq (some p.hash) (some a.hash) ≡ false
    → is_done (action_of (some policy) base (some p) (some a)) ≢ true
unfolding action_of
remapped-moves pc base p a e h = ground (arith, e)
remapped-moves android base p a e h = ground (arith, e)
remapped-moves compare base p a e h = ground (arith, e)

-- What was neither moved nor kept twice is the same on both.
action_of-none :
    (bootstrap : Option RemapPolicy) (base : Option Text) (p a : Option Entry)
    → is_done (action_of bootstrap base p a) ≡ true
    → hash_of p ≡ hash_of a
unfolding action_of
action_of-none none base p a e = reconcile-none base (hash_of p) (hash_of a) e
action_of-none (some policy) base none a e = reconcile-none base none (hash_of a) e
action_of-none (some policy) base (some p) none e = reconcile-none base (some p.hash) none e
action_of-none (some policy) base (some p) (some a) e =
    elim (Bool-cases (opt_eq (some p.hash) (some a.hash))) [
      | inl same ↦ (opt_eq_iff (some p.hash) (some a.hash)).0 same
      | inr other ↦ absurd (remapped-moves policy base p a other e)
    ]

abbrev Agree : Versions → Type 0
Agree v = (hash_of v.on_pc ≡ v.committed) × (hash_of v.on_phone ≡ v.committed)

performed-Agree :
    (action : Action) (p a : Option Entry)
    → (is_done action ≡ true → hash_of p ≡ hash_of a)
    → Agree (performed action p a)
unfolding performed
performed-Agree Action.none p a e = (refl, sym (e refl))
performed-Agree to_android p a e = (refl, refl)
performed-Agree to_pc p a e = (refl, refl)
performed-Agree conflict p a e = (refl, refl)

decide-none :
    (remap : Option RemapPolicy) (b : Option Text) (p a : Option Entry)
    → is_done (decide bidirectional remap b p a).action ≡ true
    → hash_of p ≡ hash_of a
unfolding decide
decide-none remap b p a e = action_of-none (bootstrap_of remap b) b p a e

allowed :
    (remap : Option RemapPolicy) (p a : Option Entry) (b : Option Text)
    → (decide bidirectional remap b p a).prohibited ≡ false
unfolding decide bootstrap_of
allowed none p a none = refl
allowed none p a (some b) = refl
allowed (some r) p a none = refl
allowed (some r) p a (some b) = refl

merged-Agree :
    (remap : Option RemapPolicy) (p a : Option Entry) (b : Option Text)
    → Agree (merged (decide bidirectional remap b p a) p a b)
unfolding merged
merged-Agree remap p a b =
    rw (allowed remap p a b)
      (performed-Agree (decide bidirectional remap b p a).action p a (decide-none remap b p a))

-- When a round without a direction returns, the two devices hold files of one hash, the committed one, or none and
-- nothing is committed, at each path that came up, is not excluded and is outside the conflict folder, each path coming
-- up once.
pub coordinate-agrees :
    (env : Env) (paths : List Text) (base : Map Text) (conflicts : Map (Unit {0})) (q : Text)
    → env.mode ≡ bidirectional
    → Distinct paths
    → Among q paths
    → env.excluded q ≡ false
    → starts_with q conflict_folder ≡ false
    → (coordinate env paths (begin base conflicts env.pc env.android)).0 ≡ ok tt
    → let r = (coordinate env paths (begin base conflicts env.pc env.android)).1 in
      (hash_of (lookup q r.local) ≡ lookup q r.base) × (hash_of (lookup q r.peer) ≡ lookup q r.base)
coordinate-agrees env paths base conflicts q both_ways d at plain outside returns =
    subst Agree (sym (coordinate-merged env paths base conflicts q d at plain outside returns)) (
      rw both_ways
        (merged-Agree env.remap (lookup q env.pc) (lookup q env.android) (lookup q base)))
