-- ===== src/Recovery.antt =====
-- The recovery journal of crates/rowd-core/src/storage.rs, for the file at one path. A content is
-- named by its hash. A journal and the backup that it names are one slot; the slots are those of
-- the path, in the order in which the directory is read.
pub mod Install
pub mod Runs
pub mod Crash
pub mod Restart
use rowd.Base.{
  Text, Option, none, some, Bool, true, false, not, ◌&&◌, ◌||◌, List, [], ◌∷◌, if◌then◌else◌,
}
use rowd.Model.{opt_eq}

pub record Journal : Type 0 where
  pub new_hash : Option Text
  pub old_hash : Option Text
  pub finished : Bool

pub record Slot : Type 0 where
  pub journal : Journal
  pub backup : Option Text

-- What the disk holds of the path after a recovery, and whether that went through.
pub record Recovered : Type 0 where
  pub through : Bool
  pub target : Option Text
  pub slots : List Slot

abbrev pub exists : Option Text → Bool
exists none = false
exists (some t) = true

-- A missing file comes back from its backup.
unfoldable pub restore : Option Text → Option Text → Option Text
restore none backup = backup
restore (some t) backup = some t

-- `restored || before_displacement || new_hash == current`, and the test of the other branch.
unfoldable pub is_known : Slot → Option Text → Bool
unfolding opt_eq
is_known slot none = not (exists slot.journal.old_hash) && not (exists slot.backup)
is_known slot (some current) =
    opt_eq slot.backup (some current)
    || (not (exists slot.backup) && opt_eq slot.journal.old_hash (some current))
    || opt_eq slot.journal.new_hash (some current)

abbrev pub finish : Slot → Slot
finish slot = record slot { journal = record slot.journal { finished = true } }

-- `RECOVERY_REQUIRED` ends the loop; what was restored until then stays.
unfoldable pub recover : List Slot → Option Text → Recovered
unfolding restore is_known
recover [] target = record { through = true; target = target; slots = [] }
recover (slot ∷ slots) target =
    let skipped = recover slots target in
    let found = restore target slot.backup in
    let rest = recover slots found in
    if slot.journal.finished
    then record skipped { slots = slot ∷ skipped.slots }
    else if is_known slot found
    then record rest { slots = finish slot ∷ rest.slots }
    else record { through = false; target = found; slots = slot ∷ slots }
