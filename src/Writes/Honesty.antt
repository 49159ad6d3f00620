-- ===== src/Writes/Honesty.antt =====
-- What the watcher of crates/rowd-core/src/internal_writes.rs keeps quiet.
use rowd.Base.{
  ℕ, ◌+◌, ◌<◌, Text, text_eq, text_eq_iff, text_eq_refl, lookup, insert, remove, lookup-insert,
  lookup-remove, Option, none, some, Bool, Bool-cases, inl, inr, true, false, List, [], ◌∷◌,
  if◌then◌else◌, ◌≡◌, ◌≢◌, refl, sym, ap, subst, ◌∙◌, arith,
}
use rowd.Model.{Entry, Manifest, entry_eq_iff}
use rowd.Writes.{
  Expected, Registry, lives, retain, register, finished_at, complete, abandon, find_target,
  same_file, compared, settled, after_wait, matches,
}

-- What was compared.
record Matched (waited : Registry) (disk : Manifest) (target : Text) : Type 0 where
  expected : Expected
  there : lookup target waited ≡ some expected
  done : expected.finished ≡ true
  same : lookup target disk ≡ some expected.entry

same_file-eq : (o : Option Entry) (e : Entry) → same_file o e ≡ true → o ≡ some e
same_file-eq none e h = cc
same_file-eq (some d) e h = ap some ((entry_eq_iff d e).0 h)

compared-same :
    (disk : Manifest) (target : Text) (writes : Registry) (e : Expected)
    → (compared disk target writes e).0 ≡ true
    → same_file (lookup target disk) e.entry ≡ true
compared-same disk target writes e h = ground (arith, h)

unfinished :
    (disk : Manifest) (target : Text) (writes : Registry) (e : Expected)
    → e.finished ≡ false
    → (settled disk target writes (some e)).0 ≢ true
unfinished disk target writes e u h = ground (arith, rw u at h)

found : (p path target : Text) → p ≡ path → some p ≡ some target → target ≡ path
found p path target e h = cc

settled-Matched :
    (disk : Manifest) (target : Text) (writes : Registry) (o : Option Expected)
    → lookup target writes ≡ o
    → (settled disk target writes o).0 ≡ true
    → Matched writes disk target
settled-Matched disk target writes none at h = cc
settled-Matched disk target writes (some e) at h = elim (Bool-cases e.finished) [
  | inl done ↦ record {
    expected = e;
    there = at;
    done = done;
    same =
        same_file-eq (lookup target disk) e.entry
          (compared-same disk target writes e (rw done at h));
  }
  | inr under_way ↦ absurd (unfinished disk target writes e under_way h)
]

after_wait-Matched :
    (disk : Manifest) (writes waited : Registry) (o : Option Text)
    → (after_wait disk writes waited o).0 ≡ true
    → (target : Text) × (o ≡ some target) × Matched waited disk target
after_wait-Matched disk writes waited none h = cc
after_wait-Matched disk writes waited (some target) h =
    (target, refl, settled-Matched disk target waited (lookup target waited) refl h)

find_target-own :
    (path : Text) (writes : Registry) (target : Text)
    → find_target path false writes ≡ some target
    → target ≡ path
unfolding find_target
find_target-own path [] target h = cc
find_target-own path ((p, e) ∷ rest) target h = elim (Bool-cases (text_eq p path)) [
  | inl same ↦ found p path target ((text_eq_iff p path).0 same) (rw same at h)
  | inr apart ↦ find_target-own path rest target (rw apart at h)
]

-- What the watcher does not report is a write that was registered and completed, and the file has the size and the hash
-- that were registered; for an event that creates no directory it is the file of the event.
pub matches-Matched :
    (now : ℕ) (path : Text) (created : Bool) (writes waited : Registry) (disk : Manifest)
    → (matches now path created writes waited disk).0 ≡ true
    → (target : Text) × (e : Expected) × (lookup target waited ≡ some e)
      × (e.finished ≡ true)
      × (lookup target disk ≡ some e.entry)
      × (created ≡ false → target ≡ path)
unfolding matches
matches-Matched now path created writes waited disk h =
    let (target, found_it, m) =
      after_wait-Matched disk (retain now writes) waited
        (find_target path created (retain now writes)) h in
    (
      target,
      m.expected,
      m.there,
      m.done,
      m.same,
      λ plain.
          find_target-own path (retain now writes) target
            (sym (ap (λ b. find_target path b (retain now writes)) plain) ∙ found_it),
    )

held_none : (d : Expected) → some d ≢ none
held_none d h = cc

lookup-retain :
    (now : ℕ) (k : Text) (writes : Registry) (e : Expected)
    → lookup k writes ≡ some e
    → lives now e ≡ true
    → lookup k (retain now writes) ≡ some e
unfolding lookup retain
lookup-retain now k [] e h l = cc
lookup-retain now k ((p, d) ∷ rest) e h l = elim (Bool-cases (text_eq p k)) [
  | inl same ↦
      let d_is : d ≡ e = ap (λ o. elim o [ none ↦ d | some x ↦ x ]) (rw same at h) in
      let alive : lives now d ≡ true = subst (λ x. lives now x ≡ true) (sym d_is) l in
      rw (alive, same) (ap some d_is)
  | inr apart ↦ ground (arith, apart, h, lookup-retain now k rest e (rw apart at h) l)
]

find_target-lookup :
    (path : Text) (writes : Registry) (e : Expected)
    → lookup path writes ≡ some e
    → find_target path false writes ≡ some path
unfolding lookup find_target
find_target-lookup path [] e h = cc
find_target-lookup path ((p, d) ∷ rest) e h = elim (Bool-cases (text_eq p path)) [
  | inl same ↦ rw same (ap some ((text_eq_iff p path).0 same))
  | inr apart ↦ rw apart (find_target-lookup path rest e (rw apart at h))
]

retain-none :
    (now : ℕ) (k : Text) (writes : Registry)
    → lookup k writes ≡ none
    → lookup k (retain now writes) ≡ none
unfolding lookup retain
retain-none now k [] h = refl
retain-none now k ((p, d) ∷ rest) h = elim (Bool-cases (text_eq p k)) [
  | inl same ↦ absurd (held_none d (rw same at h))
  | inr apart ↦ ground (arith, apart, retain-none now k rest (rw apart at h))
]

find_target-none :
    (path : Text) (writes : Registry)
    → lookup path writes ≡ none
    → find_target path false writes ≡ none
unfolding lookup find_target
find_target-none path [] h = refl
find_target-none path ((p, d) ∷ rest) h = elim (Bool-cases (text_eq p path)) [
  | inl same ↦ absurd (held_none d (rw same at h))
  | inr apart ↦ rw apart (find_target-none path rest (rw apart at h))
]

compared-true :
    (disk : Manifest) (target : Text) (writes : Registry) (e : Expected)
    → lookup target disk ≡ some e.entry
    → (compared disk target writes e).0 ≡ true
compared-true disk target writes e h = rw (h, (entry_eq_iff e.entry e.entry).1 refl) refl

after-complete :
    (now done : ℕ) (path : Text) (parents : List Text) (entry : Entry) (writes : Registry)
    → lookup path (complete done path (register now path parents entry writes))
      ≡ some (record { entry = entry; parents = parents; finished = true; expires = done + 30 })
unfolding complete register
after-complete now done path parents entry writes =
    let e : Expected = record {
      entry = entry;
      parents = parents;
      finished = false;
      expires = now + 30;
    } in
    let kept = retain now writes in
    let there : lookup path (insert path e kept) ≡ some e =
      lookup-insert path path e kept
      ∙ ap (λ b. if b then some e else lookup path kept) (text_eq_refl path) in
    ap (λ o. lookup path (finished_at done path (insert path e kept) o)) there
    ∙ lookup-insert path path _ (insert path e kept)
    ∙ ap
        (λ b.
          if b
          then some (record e { finished = true; expires = done + 30 })
          else lookup path (insert path e kept))
        (text_eq_refl path)

-- An event on a file that was written and completed less than thirty seconds before, and is as it was registered, is not
-- reported, and one on a file whose write was abandoned is.
pub matches-complete :
    (now done seen : ℕ) (path : Text) (parents : List Text) (entry : Entry) (writes : Registry)
    (disk : Manifest)
    → let begun = register now path parents entry writes in
      let r = complete done path begun in
      lookup path disk ≡ some entry
      → seen < done + 30
      → ((matches seen path false r (retain seen r) disk).0 ≡ true)
        × ((waited : Registry)
            → (matches seen path false (abandon path begun) waited disk).0 ≡ false)
unfolding matches abandon
matches-complete now done seen path parents entry writes disk held soon =
    let begun = register now path parents entry writes in
    let r = complete done path begun in
    let e : Expected = record {
      entry = entry;
      parents = parents;
      finished = true;
      expires = done + 30;
    } in
    let at =
      lookup-retain seen path r e (after-complete now done path parents entry writes)
        (ground (arith, soon)) in
    let dropped : lookup path (remove path begun) ≡ none =
      lookup-remove path path begun
      ∙ ap (λ b. if b then none else lookup path begun) (text_eq_refl path) in
    (
      ap (λ o. (after_wait disk (retain seen r) (retain seen r) o).0)
            (find_target-lookup path (retain seen r) e at)
          ∙ ap (λ o. (settled disk path (retain seen r) o).0) at
          ∙ compared-true disk path (retain seen r) e held,
      λ waited.
          ap (λ o. (after_wait disk (retain seen (remove path begun)) waited o).0)
            (find_target-none path (retain seen (remove path begun))
              (retain-none seen path (remove path begun) dropped)),
    )
