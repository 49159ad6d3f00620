-- ===== src/Round/Windows/Sides.antt =====
-- The unwraps of crates/rowd-core/src/sync.rs: which entries an action takes for granted.
use rowd.Base.{Text, Option, none, some, ◌≢◌, arith}
use rowd.Config.{SyncMode, RemapPolicy, pc, android, compare}
use rowd.Model.{Entry, hash_of, reconcile}
use rowd.Model.Actions.{Action, to_pc, to_android, conflict}
use rowd.Round.Decide.{decide, bootstrap_of, action_of}

-- What an action takes for granted of the two sides.
abbrev pub Present : Action → Option Entry → Option Entry → Type 0
Present to_android p a = p ≢ none
Present to_pc p a = a ≢ none
Present conflict p a = (p ≢ none) × (a ≢ none)
Present Action.none p a = Unit

reconcile-Present :
    (base : Option Text) (p a : Option Entry) → Present (reconcile base (hash_of p) (hash_of a)) p a
unfolding reconcile
reconcile-Present base none none = tt
reconcile-Present base (some p) none = ground arith
reconcile-Present base none (some a) = ground arith
reconcile-Present base (some p) (some a) = ground arith

action_of-Present :
    (r : Option RemapPolicy) (base : Option Text) (p a : Option Entry)
    → Present (action_of r base p a) p a
unfolding action_of
action_of-Present none base p a = reconcile-Present base p a
action_of-Present (some r) base none a = reconcile-Present base none a
action_of-Present (some r) base (some p) none = reconcile-Present base (some p) none
action_of-Present (some pc) base (some p) (some a) =
    ground (arith, reconcile-Present base (some p) (some a))
action_of-Present (some android) base (some p) (some a) =
    ground (arith, reconcile-Present base (some p) (some a))
action_of-Present (some compare) base (some p) (some a) =
    ground (arith, reconcile-Present base (some p) (some a))

-- No decision needs a file that its side lacks: a transfer to one device finds the entry of the
-- other, and a conflict both.
pub decide-Present :
    (mode : SyncMode) (remap : Option RemapPolicy) (base : Option Text) (p a : Option Entry)
    → Present (decide mode remap base p a).action p a
unfolding decide
decide-Present mode remap base p a = action_of-Present (bootstrap_of remap base) base p a
