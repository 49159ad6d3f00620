-- ===== src/Recovery/Install.antt =====
-- `LocalStore::install_file` of crates/rowd-core/src/storage.rs, one change of the disk at a time, so
-- that a crash or another program may come in between.
use rowd.Base.{Text, Option, none, some, true, false, List, [], ◌∷◌, if◌then◌else◌}
use rowd.Model.{opt_eq}
use rowd.Recovery.{Slot, Recovered, exists, recover}

-- How far an installation is. `checked` and later hold the content that was found.
pub data Phase : Type 0 where
  starting : Phase
  checked journalled : Option Text → Phase
  displaced publishing published installed failed : Phase

pub record Site : Type 0 where
  pub target : Option Text
  pub slot : Option Slot
  pub phase : Phase

-- The slots that a recovery finds: that of this installation, once its journal is written.
abbrev pub slots_of : Option Slot → List Slot
slots_of none = []
slots_of (some slot) = slot ∷ []

abbrev pub first_slot : List Slot → Option Slot
first_slot [] = none
first_slot (slot ∷ slots) = some slot

abbrev pub after : Recovered → Phase → Site
after r phase = record { target = r.target; slot = first_slot r.slots; phase = phase }

abbrev pub backup_of : Option Slot → Option Text
backup_of none = none
backup_of (some slot) = slot.backup

abbrev pub set_backup : Option Text → Option Slot → Option Slot
set_backup b none = none
set_backup b (some slot) = some (record slot { backup = b })

abbrev pub finish_journal : Option Slot → Option Slot
finish_journal none = none
finish_journal (some slot) =
    some (record slot { journal = record slot.journal { finished = true } })

module _ (expected : Option Text) (new : Text) where
  -- The next change that an installation makes, by its phase.
  unfoldable pub next : Phase → Option Text → Option Slot → Site
  unfolding recover opt_eq
  next starting target slot =
      if opt_eq target (some new)
      then record { target = target; slot = slot; phase = installed }
      else if opt_eq target expected
      then record { target = target; slot = slot; phase = checked target }
      else record { target = target; slot = slot; phase = failed }
  next (checked found) target slot = record {
    target = target;
    slot = some (record {
      journal = record { new_hash = some new; old_hash = found; finished = false };
      backup = none;
    });
    phase = journalled found;
  }
  next (journalled none) target slot = record { target = target; slot = slot; phase = publishing }
  next (journalled (some h)) target slot =
      if exists target
      then record { target = none; slot = set_backup target slot; phase = displaced }
      else record { target = target; slot = slot; phase = failed }
  next displaced target slot =
      if opt_eq (backup_of slot) expected
      then record { target = target; slot = slot; phase = publishing }
      else after (recover (slots_of slot) target) failed
  next publishing target slot =
      if exists target
      then after (recover (slots_of slot) target) failed
      else record { target = some new; slot = slot; phase = published }
  next published target slot = record {
    target = target;
    slot = finish_journal slot;
    phase = installed;
  }
  next installed target slot = record { target = target; slot = slot; phase = installed }
  next failed target slot = record { target = target; slot = slot; phase = failed }

  unfoldable pub advance : Site → Site
  unfolding next
  advance site = next site.phase site.target site.slot

-- A crash, and the recovery when the store is opened again.
unfoldable pub restart : Site → Site
unfolding recover
restart site = after (recover (slots_of site.slot) site.target) failed
