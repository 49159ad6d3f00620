-- ===== src/Examples/Recoveries.antt =====
-- An installation and its recovery in crates/rowd-core/src/storage.rs, on contents of one letter.
use rowd.Base.{Text, codes, none, some, false, List, [], ◌∷◌, ◌≡◌, inr, refl, text_eq}
use rowd.Recovery.{Slot, recover}
use rowd.Recovery.Install.{slots_of, installed}
use rowd.Recovery.Runs.{Event, Own, Kept, begin, play, own, play-Kept, edit}
use rowd.Recovery.Crash.{advances, Recovers, recover-advances, advances-installs}
use rowd.Recovery.Restart.{backups, recover-keeps}

abbrev old : Text
old = codes "o"

abbrev new : Text
new = codes "n"

abbrev other : Text
other = codes "x"

-- Another program writes between the check and the displacement.
abbrev before : List Event
before = Event.step ∷ Event.step ∷ edit (some other) ∷ Event.step ∷ []

abbrev then_crash : List Own
then_crash = Own.step ∷ Own.crash ∷ []

in_backup : Kept other (play (some old) new before (begin (some old)))
unfolding play text_eq
in_backup = inr refl

play-Kept_example :
    Kept other
      (play (some old) new (own then_crash) (play (some old) new before (begin (some old))))
play-Kept_example = play-Kept (some old) new (some old) before then_crash other in_backup

recover-advances_example : Recovers (some old) new (
    recover
      (slots_of (advances (some old) new 4 (begin (some old))).slot)
      (advances (some old) new 4 (begin (some old))).target)
recover-advances_example = recover-advances (some old) new 4

advances-installs_example :
    ((advances (some old) new 6 (begin (some old))).phase ≡ installed)
    × ((advances (some old) new 6 (begin (some old))).target ≡ some new)
advances-installs_example = advances-installs (some old) new

-- The file is missing, and its backup is there.
abbrev displaced_slots : List Slot
displaced_slots =
    record {
      journal = record { new_hash = some new; old_hash = some old; finished = false };
      backup = some old;
    }
    ∷ []

comes_back : (recover displaced_slots none).target ≡ some old
unfolding recover text_eq
comes_back = refl

recover-keeps_example :
    (backups (recover displaced_slots (some other)).slots ≡ backups displaced_slots)
    × ((v : Text) → some other ≡ some v → (recover displaced_slots (some other)).target ≡ some v)
recover-keeps_example = recover-keeps displaced_slots (some other)
