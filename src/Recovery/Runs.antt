-- ===== src/Recovery/Runs.antt =====
-- An installation of crates/rowd-core/src/storage.rs among crashes and other programs that write the
-- same path.
use rowd.Base.{
  Text, Option, none, some, List, [], ◌∷◌, ◌⊎◌, inl, inr, ◌≡◌, refl, arith, if◌then◌else◌,
}
use rowd.Recovery.{Slot, exists, recover}
use rowd.Recovery.Install.{
  Phase, Site, next, advance, restart, after, slots_of, first_slot, backup_of, starting, checked,
  journalled, displaced, publishing, published, installed, failed,
}

-- `edit` is another program that writes or deletes the file by its name, `late_write` one that still
-- has the displaced file open.
pub data Event : Type 0 where
  step crash : Event
  edit : Option Text → Event
  late_write : Text → Event

abbrev pub begin : Option Text → Site
begin target = record { target = target; slot = none; phase = starting }

abbrev late_slot : Text → Option Slot → Option Slot
late_slot v none = none
late_slot v (some slot) =
    if exists slot.backup then some (record slot { backup = some v }) else some slot

module _ (expected : Option Text) (new : Text) where
  unfoldable pub happen : Event → Site → Site
  unfolding advance restart
  happen step site = advance expected new site
  happen crash site = restart site
  happen (edit content) site = record site { target = content }
  happen (late_write v) site = record site { slot = late_slot v site.slot }

  unfoldable pub play : List Event → Site → Site
  unfolding happen
  play [] site = site
  play (e ∷ es) site = play es (happen e site)

-- The content is in the file or in the backup.
abbrev pub Kept : Text → Site → Type 0
Kept v site = (site.target ≡ some v) ⊎ (backup_of site.slot ≡ some v)

-- Nothing is displaced onto a backup.
abbrev FreshAt : Phase → Option Slot → Type 0
FreshAt starting slot = slot ≡ none
FreshAt (checked found) slot = slot ≡ none
FreshAt (journalled found) none = ⊥
FreshAt (journalled found) (some slot) = slot.backup ≡ none
FreshAt _ slot = Unit

abbrev Fresh : Site → Type 0
Fresh site = FreshAt site.phase site.slot

recover-backup :
    (slot : Option Slot) (t : Option Text)
    → backup_of (first_slot (recover (slots_of slot) t).slots) ≡ backup_of slot
unfolding recover
recover-backup none t = refl
recover-backup (some slot) t = ground arith

recover-target :
    (slot : Option Slot) (t : Option Text) (v : Text)
    → t ≡ some v
    → (recover (slots_of slot) t).target ≡ some v
unfolding recover
recover-target none t v h = h
recover-target (some slot) t v h = ground arith

recover-Kept :
    (v : Text) (t : Option Text) (slot : Option Slot) (phase : Phase)
    → (t ≡ some v) ⊎ (backup_of slot ≡ some v)
    → Kept v (after (recover (slots_of slot) t) phase)
recover-Kept v t slot phase (inl h) = inl (recover-target slot t v h)
recover-Kept v t slot phase (inr h) = inr (rw (recover-backup slot t) h)

module _ (expected : Option Text) (new : Text) where
  next-Kept :
      (v : Text) (phase : Phase) (t : Option Text) (slot : Option Slot)
      → FreshAt phase slot
      → (t ≡ some v) ⊎ (backup_of slot ≡ some v)
      → Kept v (next expected new phase t slot)
  unfolding next
  next-Kept v starting t slot f h = ground arith
  next-Kept v (checked found) t slot f h = ground arith
  next-Kept v (journalled none) t slot f h = h
  next-Kept v (journalled (some x)) t none f h = absurd f
  next-Kept v (journalled (some x)) none (some slot) f h = h
  next-Kept v (journalled (some x)) (some c) (some slot) f (inl h) = inr h
  next-Kept v (journalled (some x)) (some c) (some slot) f (inr h) = ground arith
  next-Kept v displaced t slot f h = ground (arith, recover-Kept v t slot failed h)
  next-Kept v publishing t slot f h = ground (arith, recover-Kept v t slot failed h)
  next-Kept v published t none f h = h
  next-Kept v published t (some slot) f h = h
  next-Kept v installed t slot f h = h
  next-Kept v failed t slot f h = h

  next-Fresh :
      (phase : Phase) (t : Option Text) (slot : Option Slot)
      → FreshAt phase slot
      → Fresh (next expected new phase t slot)
  unfolding next
  next-Fresh starting t slot f = ground arith
  next-Fresh (checked found) t slot f = refl
  next-Fresh (journalled none) t slot f = tt
  next-Fresh (journalled (some x)) none slot f = tt
  next-Fresh (journalled (some x)) (some c) slot f = tt
  next-Fresh displaced t slot f = ground arith
  next-Fresh publishing t slot f = ground arith
  next-Fresh published t slot f = tt
  next-Fresh installed t slot f = tt
  next-Fresh failed t slot f = tt

  late_slot-FreshAt :
      (v : Text) (phase : Phase) (slot : Option Slot)
      → FreshAt phase slot
      → FreshAt phase (late_slot v slot)
  late_slot-FreshAt v phase none f = f
  late_slot-FreshAt v starting (some slot) f = cc
  late_slot-FreshAt v (checked found) (some slot) f = cc
  late_slot-FreshAt v (journalled found) (some slot) f = ground arith
  late_slot-FreshAt v displaced (some slot) f = tt
  late_slot-FreshAt v publishing (some slot) f = tt
  late_slot-FreshAt v published (some slot) f = tt
  late_slot-FreshAt v installed (some slot) f = tt
  late_slot-FreshAt v failed (some slot) f = tt

  happen-Fresh : (e : Event) (site : Site) → Fresh site → Fresh (happen expected new e site)
  unfolding happen
  happen-Fresh step site f = unfold advance in next-Fresh site.phase site.target site.slot f
  happen-Fresh crash site f = unfold restart in tt
  happen-Fresh (edit content) site f = f
  happen-Fresh (late_write v) site f = late_slot-FreshAt v site.phase site.slot f

  play-Fresh : (es : List Event) (site : Site) → Fresh site → Fresh (play expected new es site)
  unfolding play
  play-Fresh [] site f = f
  play-Fresh (e ∷ es) site f = play-Fresh es (happen expected new e site) (happen-Fresh e site f)

-- What the installation and recoveries do by themselves.
pub data Own : Type 0 where
  step crash : Own

abbrev pub event : Own → Event
event step = step
event crash = crash

abbrev pub own : List Own → List Event
own [] = []
own (e ∷ es) = event e ∷ own es

module _ (expected : Option Text) (new : Text) where
  own-Kept :
      (es : List Own) (site : Site) (v : Text)
      → Fresh site
      → Kept v site
      → Kept v (play expected new (own es) site)
  unfolding play
  own-Kept [] site v f h = h
  own-Kept (step ∷ es) site v f h =
      own-Kept es (happen expected new step site) v (happen-Fresh expected new step site f)
        (unfold happen advance in next-Kept expected new v site.phase site.target site.slot f h)
  own-Kept (crash ∷ es) site v f h =
      own-Kept es (happen expected new crash site) v (happen-Fresh expected new crash site f)
        (unfold happen restart in recover-Kept v site.target site.slot failed h)

  -- However an installation, crashes and other programs have come between each other so far: a
  -- content that the file or the backup has then, an edit of another program included, is in one of
  -- them after any further steps of the installation, crashes and recoveries.
  pub play-Kept :
      (target : Option Text) (before : List Event) (es : List Own) (v : Text)
      → Kept v (play expected new before (begin target))
      → Kept v (play expected new (own es) (play expected new before (begin target)))
  play-Kept target before es v h =
      own-Kept es (play expected new before (begin target)) v
        (play-Fresh expected new before (begin target) refl) h
