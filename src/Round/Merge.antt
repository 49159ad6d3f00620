-- ===== src/Round/Merge.antt =====
-- What a round of crates/rowd-core/src/sync.rs makes of one path: the versions that the devices and
-- the base hold of it before and after.
pub mod Leads
pub mod Due
pub mod Track
pub mod Drains
pub mod Elsewhere
pub mod Others
pub mod Here
pub mod Act
pub mod Whole
pub mod Agreement
use rowd.Base.{Text, Option, none, some, if◌then◌else◌}
use rowd.Model.{Entry, hash_of}
use rowd.Model.Actions.{Action, to_pc, to_android, conflict}
use rowd.Round.Decide.{Decision}

pub record Versions : Type 0 where
  pub on_pc : Option Entry
  pub on_phone : Option Entry
  pub committed : Option Text

abbrev pub both : Option Entry → Versions
both e = record { on_pc = e; on_phone = e; committed = hash_of e }

unfoldable pub performed : Action → Option Entry → Option Entry → Versions
performed Action.none p a = record { on_pc = p; on_phone = a; committed = hash_of p }
performed to_android p a = both p
performed to_pc p a = both a
performed conflict p a = both p

unfoldable pub merged : Decision → Option Entry → Option Entry → Option Text → Versions
unfolding performed
merged d p a b =
    if d.prohibited
    then record { on_pc = p; on_phone = a; committed = b }
    else performed d.action p a
