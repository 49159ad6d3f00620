-- ===== src/Recovery/Restart.antt =====
-- `LocalStore::recover` of crates/rowd-core/src/storage.rs over all the slots of a path.
use rowd.Base.{
  Text, Option, none, some, true, List, [], ◌∷◌, map, All, ◌≡◌, refl, sym, ap, ◌∙◌, arith,
}
use rowd.Recovery.{Slot, restore, recover}

abbrev pub backups : List Slot → List (Option Text)
backups slots = map (λ slot. slot.backup) slots

restore-some : (t b : Option Text) (v : Text) → t ≡ some v → restore t b ≡ some v
unfolding restore
restore-some none b v h = cc
restore-some (some x) b v h = h

recover-backups :
    (slots : List Slot) (t : Option Text) → backups (recover slots t).slots ≡ backups slots
unfolding recover
recover-backups [] t = refl
recover-backups (slot ∷ slots) t =
    let skipped = recover-backups slots t in
    let rest = recover-backups slots (restore t slot.backup) in ground (arith, skipped, rest)

recover-target :
    (slots : List Slot) (t : Option Text) (v : Text)
    → t ≡ some v
    → (recover slots t).target ≡ some v
unfolding recover
recover-target [] t v h = h
recover-target (slot ∷ slots) t v h =
    let found = restore-some t slot.backup v h in
    ground (
      arith,
      recover-target slots t v h,
      recover-target slots (restore t slot.backup) v found,
      found,
    )

-- A recovery, successful or not, leaves every backup as it is and overwrites no file.
pub recover-keeps :
    (slots : List Slot) (t : Option Text)
    → (backups (recover slots t).slots ≡ backups slots)
      × ((v : Text) → t ≡ some v → (recover slots t).target ≡ some v)
recover-keeps slots t = (recover-backups slots t, recover-target slots t)

IsFinished : Slot → Type 0
IsFinished slot = slot.journal.finished ≡ true

recover-IsFinished :
    (slots : List Slot) (t : Option Text)
    → (recover slots t).through ≡ true
    → All IsFinished (recover slots t).slots
unfolding recover IsFinished
recover-IsFinished [] t h = tt
recover-IsFinished (slot ∷ slots) t h =
    let skipped = recover-IsFinished slots t in
    let rest = recover-IsFinished slots (restore t slot.backup) in ground (arith, h, skipped, rest)

recover_finished :
    (slots : List Slot) (t : Option Text)
    → All IsFinished slots
    → recover slots t ≡ record { through = true; target = t; slots = slots }
unfolding recover IsFinished
recover_finished [] t h = refl
recover_finished (slot ∷ slots) t h = ground (arith, recover_finished slots t h.1)

-- A second recovery after one that went through changes nothing.
recover-recover :
    (slots : List Slot) (t : Option Text)
    → (recover slots t).through ≡ true
    → recover (recover slots t).slots (recover slots t).target ≡ recover slots t
recover-recover slots t h =
    recover_finished (recover slots t).slots (recover slots t).target (recover-IsFinished slots t h)
    ∙ ap
        (λ b. record {
          through = b;
          target = (recover slots t).target;
          slots = (recover slots t).slots;
        })
        (sym h)
