-- ===== src/Recovery/Crash.antt =====
-- An installation of crates/rowd-core/src/storage.rs that no other program disturbs, stopped by a
-- crash after any of its steps.
use rowd.Base.{
  [], ◌∷◌, ℕ, zero, suc, Text, Option, none, some, true, false, ◌⊎◌, inl, inr, ◌≡◌, refl, sym, ap,
  ◌∙◌, arith, text_eq_iff,
}
use rowd.Model.{opt_eq, opt_eq_iff}
use rowd.Recovery.{Slot, finish, Recovered, recover}
use rowd.Recovery.Install.{
  Phase, Site, next, advance, slots_of, backup_of, set_backup, finish_journal, starting, checked,
  journalled, displaced, publishing, published, installed, failed,
}
use rowd.Recovery.Runs.{begin}

module _ (expected : Option Text) (new : Text) where
  unfoldable pub advances : ℕ → Site → Site
  unfolding advance
  advances zero site = site
  advances (suc n) site = advances n (advance expected new site)

abbrev written : Text → Option Text → Option Text → Slot
written new found b = record {
  journal = record { new_hash = some new; old_hash = found; finished = false };
  backup = b;
}

-- A recovery that goes through and leaves the old file or the new one.
abbrev pub Recovers : Option Text → Text → Recovered → Type 0
Recovers cur new r = (r.through ≡ true) × ((r.target ≡ cur) ⊎ (r.target ≡ some new))

untouched-Recovers :
    (cur : Option Text) (new : Text) → Recovers cur new (recover (written new cur none ∷ []) cur)
unfolding recover opt_eq
untouched-Recovers none new = (refl, inl refl)
untouched-Recovers (some c) new = ground (arith, (text_eq_iff c c).1 refl)

displaced-Recovers :
    (cur : Option Text) (new : Text) → Recovers cur new (recover (written new cur cur ∷ []) none)
unfolding recover opt_eq
displaced-Recovers none new = (refl, inl refl)
displaced-Recovers (some c) new = ground (arith, (text_eq_iff c c).1 refl)

published-Recovers :
    (cur : Option Text) (new : Text)
    → Recovers cur new (recover (written new cur cur ∷ []) (some new))
unfolding recover opt_eq
published-Recovers none new = ground (arith, (text_eq_iff new new).1 refl)
published-Recovers (some c) new = ground (arith, (text_eq_iff new new).1 refl)

finished-Recovers :
    (cur : Option Text) (new : Text)
    → Recovers cur new (recover (finish (written new cur cur) ∷ []) (some new))
unfolding recover
finished-Recovers cur new = (refl, inr refl)

module _ (cur : Option Text) (new : Text) where
  -- The slot of an installation that has found `cur`.
  abbrev Journalled : Option Text → Option Slot → Type 0
  Journalled b slot = slot ≡ some (written new cur b)

  abbrev SoundAt : Phase → Option Text → Option Slot → Type 0
  SoundAt starting t slot = (t ≡ cur) × (slot ≡ none)
  SoundAt (checked found) t slot = (t ≡ cur) × (slot ≡ none) × (found ≡ cur)
  SoundAt (journalled found) t slot = (t ≡ cur) × Journalled none slot × (found ≡ cur)
  SoundAt displaced t slot = (t ≡ none) × Journalled cur slot
  SoundAt publishing t slot = (t ≡ none) × Journalled cur slot
  SoundAt published t slot = (t ≡ some new) × Journalled cur slot
  SoundAt installed t slot =
      (t ≡ some new) × ((slot ≡ none) ⊎ (slot ≡ some (finish (written new cur cur))))
  SoundAt failed t slot = ⊥

  abbrev Sound : Site → Type 0
  Sound site = SoundAt site.phase site.target site.slot

  next-Sound :
      (phase : Phase) (t : Option Text) (slot : Option Slot)
      → SoundAt phase t slot
      → Sound (next cur new phase t slot)
  unfolding next
  next-Sound starting t slot h = ground (arith, opt_eq_iff t (some new), opt_eq_iff t cur)
  next-Sound (checked found) t slot h = (h.0, ap (λ o. some (written new o none)) h.2, h.2)
  next-Sound (journalled none) t slot h =
      (h.0 ∙ sym h.2, h.1 ∙ ap (λ b. some (written new cur b)) h.2)
  next-Sound (journalled (some x)) none slot h = ground arith
  next-Sound (journalled (some x)) (some c) slot h =
      (refl, ap (set_backup (some c)) h.1 ∙ ap (λ b. some (written new cur b)) h.0)
  next-Sound displaced t slot h =
      let same : backup_of slot ≡ cur = ap backup_of h.1 in
      ground (arith, same, opt_eq_iff (backup_of slot) cur)
  next-Sound publishing t slot h = ground arith
  next-Sound published t slot h = (h.0, inr (ap finish_journal h.1))
  next-Sound installed t slot h = h
  next-Sound failed t slot h = h

  advances-Sound : (n : ℕ) (site : Site) → Sound site → Sound (advances cur new n site)
  unfolding advances
  advances-Sound zero site h = h
  advances-Sound (suc n) site h =
      advances-Sound n (advance cur new site)
        (unfold advance in next-Sound site.phase site.target site.slot h)

  -- What a recovery makes of such a site.
  restart-Sound :
      (phase : Phase) (t : Option Text) (slot : Option Slot)
      → SoundAt phase t slot
      → Recovers cur new (recover (slots_of slot) t)
  restart-Sound starting t slot h = rw (h.0, h.1) (unfold recover in (refl, inl refl))
  restart-Sound (checked found) t slot h = rw (h.0, h.1) (unfold recover in (refl, inl refl))
  restart-Sound (journalled found) t slot h = rw (h.0, h.1) (untouched-Recovers cur new)
  restart-Sound displaced t slot h = rw (h.0, h.1) (displaced-Recovers cur new)
  restart-Sound publishing t slot h = rw (h.0, h.1) (displaced-Recovers cur new)
  restart-Sound published t slot h = rw (h.0, h.1) (published-Recovers cur new)
  restart-Sound installed t slot (e, inl h) = rw (e, h) (unfold recover in (refl, inr refl))
  restart-Sound installed t slot (e, inr h) = rw (e, h) (finished-Recovers cur new)
  restart-Sound failed t slot h = absurd h

-- A crash after any number of steps of an installation over the content that it expects: the recovery
-- goes through, and the file then has the old content or the new one, whole.
pub recover-advances :
    (cur : Option Text) (new : Text) (n : ℕ)
    → let site = advances cur new n (begin cur) in
      Recovers cur new (recover (slots_of site.slot) site.target)
recover-advances cur new n =
    let site = advances cur new n (begin cur) in
    restart-Sound cur new site.phase site.target site.slot
      (advances-Sound cur new n (begin cur) (refl, refl))

-- Left alone over the content that it expects, the installation ends after six steps at most, with
-- the new content in the file.
pub advances-installs :
    (cur : Option Text) (new : Text)
    → let site = advances cur new 6 (begin cur) in
      (site.phase ≡ installed) × (site.target ≡ some new)
unfolding advances recover opt_eq
advances-installs none new = (refl, refl)
advances-installs (some c) new = ground (arith, (text_eq_iff c c).1 refl, text_eq_iff c new)
