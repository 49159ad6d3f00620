-- ===== src/Round/Decide.antt =====
-- What `coordinate_candidate` of crates/rowd-core/src/sync.rs decides for one path under the mode and
-- the remap policy of the Share.
use rowd.Base.{Text, Option, none, some, Bool, true, false, not, ◌&&◌, if◌then◌else◌}
use rowd.Config.{SyncMode, RemapPolicy, bidirectional, pc, android, compare}
use rowd.Model.{Entry, reconcile, opt_eq, hash_of}
use rowd.Model.Actions.{Action, to_pc, to_android, conflict}

pub record Decision : Type 0 where
  pub action : Action
  pub prohibited : Bool

-- `remap.filter(..)`: a policy counts only for a path that has no committed base.
unfoldable pub bootstrap_of : Option RemapPolicy → Option Text → Option RemapPolicy
bootstrap_of remap none = remap
bootstrap_of remap (some b) = none

abbrev remapped : RemapPolicy → Action
remapped pc = to_android
remapped android = to_pc
remapped compare = conflict

unfoldable pub action_of : Option RemapPolicy → Option Text → Option Entry → Option Entry → Action
action_of (some policy) base (some p) (some a) =
    if not (opt_eq (some p.hash) (some a.hash))
    then remapped policy
    else reconcile base (some p.hash) (some a.hash)
action_of bootstrap base p a = reconcile base (hash_of p) (hash_of a)

abbrev against : SyncMode → Action → Bool
against bidirectional action = false
against SyncMode.to_android to_pc = true
against SyncMode.to_android conflict = true
against SyncMode.to_android _ = false
against SyncMode.to_pc to_android = true
against SyncMode.to_pc conflict = true
against SyncMode.to_pc _ = false

abbrev is_none : Option RemapPolicy → Bool
is_none none = true
is_none (some r) = false

unfoldable pub decide :
    SyncMode → Option RemapPolicy → Option Text → Option Entry → Option Entry → Decision
unfolding bootstrap_of action_of
decide mode remap base p a =
    let bootstrap = bootstrap_of remap base in
    let action = action_of bootstrap base p a in
    record { action = action; prohibited = is_none bootstrap && against mode action }
