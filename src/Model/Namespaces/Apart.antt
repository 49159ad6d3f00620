-- ===== src/Model/Namespaces/Apart.antt =====
-- Names that the two devices of crates/rowd-core/src/model.rs may not hold together, directories included.
use rowd.Base.{
  Text, Map, lookup, insert, lookup-insert, All, All-map, text_eq, text_eq_iff, text_eq_refl,
  Option, none, some, Bool, true, false, ◌||◌, leb, ◌*◌, length, List, [], ◌∷◌, Result, ok, err,
  ensure, ensure-ok, ensure-bind, ◌>>◌, >>=-eq-ok, if◌then◌else◌, if-split, inl, inr, ◌≡◌, refl,
  sym, ap, ◌∙◌, arith, subst,
}
use rowd.Model.{max_file, max_files}
use rowd.Model.Manifests.{
  ManifestError, too_many_files, too_many_entries, file_too_large, case_colliding,
  file_directory_collision, on_path,
}
use rowd.Model.Namespaces.{
  NamespaceEntry, Namespace, same_bool, ends, meets, note_ends, note_entry, note_entries,
  only_files, validate_namespace, agrees_with, union_with, validate_cross_namespace,
}
use rowd.Paths.{validate_path}

abbrev Names : Type 0
Names = Map (Text × Bool)

same_bool→eq : (a b : Bool) → same_bool a b ≡ true → a ≡ b
same_bool→eq true b h = sym h
same_bool→eq false true h = cc
same_bool→eq false false h = refl

then-ok :
    {A : Type 0} (m : Result ManifestError (Unit {0})) (k : Result ManifestError A) {a : A}
    → (m >> k) ≡ ok a
    → (m ≡ ok tt) × (k ≡ ok a)
then-ok (ok u) k h = (refl, h)
then-ok (err e) k h = cc

-- An earlier insertion that is met is the same one.
meets-same :
    (o : Option (Text × Bool)) (v : Text × Bool) (name : Text) (directory : Bool)
    → meets o name directory ≡ ok tt
    → o ≡ some v
    → v ≡ (name, directory)
meets-same none v name directory h at = cc
meets-same (some (previous, was)) v name directory h at =
    let (same, kind) = ensure-bind (text_eq previous name) case_colliding _ h in
    let k = ensure-ok (same_bool was directory) file_directory_collision kind in
    ground (arith, at, (text_eq_iff previous name).0 same, same_bool→eq was directory k)

abbrev or_empty {ℓ} : {V : Type ℓ} → Result ManifestError (Map V) → Map V
or_empty (ok m) = m
or_empty (err e) = []

abbrev Noted : (Text → Text) → Names → Text × Bool → Type 0
Noted lower names (name, directory) = lookup (lower name) names ≡ some (name, directory)

module _ (lower : Text → Text) where
  insert-keeps :
      (names : Names) (name : Text) (directory : Bool) (k : Text) (v : Text × Bool)
      → meets (lookup (lower name) names) name directory ≡ ok tt
      → lookup k names ≡ some v
      → lookup k (insert (lower name) (name, directory) names) ≡ some v
  insert-keeps names name directory k v h at =
      rw (lookup-insert (lower name) k (name, directory) names) (keep (text_eq (lower name) k) refl)
    where
      keep :
          (b : Bool)
          → text_eq (lower name) k ≡ b
          → (if b then some (name, directory) else lookup k names) ≡ some v
      keep true here =
          let found = ap (λ j. lookup j names) ((text_eq_iff (lower name) k).0 here) ∙ at in
          ap some (sym (meets-same (lookup (lower name) names) v name directory h found))
      keep false away = at

  note_ends-keeps :
      (names : Names) (paths : List (Text × Bool)) (noted : Names) (k : Text) (v : Text × Bool)
      → note_ends lower names paths ≡ ok noted
      → lookup k names ≡ some v
      → lookup k noted ≡ some v
  unfolding note_ends
  note_ends-keeps names [] noted k v h at = subst (λ m. lookup k m ≡ some v) (ap or_empty h) at
  note_ends-keeps names ((name, directory) ∷ rest) noted k v h at =
      let (met, others) = then-ok (meets (lookup (lower name) names) name directory) _ h in
      note_ends-keeps (insert (lower name) (name, directory) names) rest noted k v others
        (insert-keeps names name directory k v met at)

  note_ends-all :
      (names : Names) (paths : List (Text × Bool)) (noted : Names)
      → note_ends lower names paths ≡ ok noted
      → All (Noted lower noted) paths
  unfolding note_ends
  note_ends-all names [] noted h = tt
  note_ends-all names ((name, directory) ∷ rest) noted h =
      let (met, others) = then-ok (meets (lookup (lower name) names) name directory) _ h in
      let next = insert (lower name) (name, directory) names in
      let here : lookup (lower name) next ≡ some (name, directory) = ground (
        arith,
        lookup-insert (lower name) (lower name) (name, directory) names,
        text_eq_refl (lower name),
      ) in
      (
        note_ends-keeps next rest noted (lower name) (name, directory) others here,
        note_ends-all next rest noted others,
      )

  -- The last step of an entry that is accepted.
  noted_ends :
      (names : Names) (path : Text) (entry : NamespaceEntry) {next : Names}
      → note_entry lower names path entry ≡ ok next
      → note_ends lower names (ends path entry.directory) ≡ ok next
  unfolding note_entry
  noted_ends names path entry h =
      let (_, sized) = then-ok (on_path (validate_path path)) _ h in
      (then-ok (ensure (entry.directory || leb entry.size max_file) file_too_large) _ sized).1

  note_entries-keeps :
      (names : Names) (files : Namespace) (noted : Names) (k : Text) (v : Text × Bool)
      → note_entries lower names files ≡ ok noted
      → lookup k names ≡ some v
      → lookup k noted ≡ some v
  unfolding note_entries
  note_entries-keeps names [] noted k v h at = subst (λ m. lookup k m ≡ some v) (ap or_empty h) at
  note_entries-keeps names ((path, entry) ∷ rest) noted k v h at =
      let (next, one, others) = >>=-eq-ok (note_entry lower names path entry) _ h in
      note_entries-keeps next rest noted k v others (
        note_ends-keeps names (ends path entry.directory) next k v (noted_ends names path entry one)
          at)

  -- Every prefix of every path of a namespace is noted at the end.
  note_entries-all :
      (names : Names) (files : Namespace) (noted : Names) (p : Text) {d : NamespaceEntry}
      → note_entries lower names files ≡ ok noted
      → lookup p files ≡ some d
      → All (Noted lower noted) (ends p d.directory)
  unfolding note_entries lookup
  note_entries-all names [] noted p h at = cc
  note_entries-all names ((path, entry) ∷ rest) noted p {d} h at =
      let (next, one, others) = >>=-eq-ok (note_entry lower names path entry) _ h in
      elim (if-split (text_eq path p) _ _ at) [
        | inl (here, is) ↦
            let noted_here =
              note_ends-all names (ends path entry.directory) next
                (noted_ends names path entry one) in
            let kept =
              All-map
                (λ (name, directory) k.
                  note_entries-keeps next rest noted (lower name) (name, directory) others k)
                (ends path entry.directory) noted_here in
            let same : entry ≡ d = cc in
            subst (λ e. All (Noted lower noted) (ends p e.directory)) same
              (subst (λ q. All (Noted lower noted) (ends q entry.directory))
                ((text_eq_iff path p).0 here) kept)
        | inr (_, there) ↦ note_entries-all next rest noted p others there
      ]

-- A name keeps its kind in the union.
union_with-keeps :
    (union android out : Namespace) (p : Text) (d : NamespaceEntry)
    → union_with union android ≡ ok out
    → lookup p union ≡ some d
    → (u : NamespaceEntry) × (lookup p out ≡ some u) × (u.directory ≡ d.directory)
unfolding union_with
union_with-keeps union [] out p d h at =
    (d, subst (λ m. lookup p m ≡ some d) (ap or_empty h) at, refl)
union_with-keeps union ((path, entry) ∷ rest) out p d h at =
    let (agreed, others) =
      ensure-bind (agrees_with (lookup path union) entry) file_directory_collision _ h in
    let (v, found, kind) = keep (text_eq path p) refl agreed in
    let (u, there, same) = union_with-keeps (insert path entry union) rest out p v others found in
    (u, there, same ∙ kind)
  where
    keep :
        (b : Bool)
        → text_eq path p ≡ b
        → agrees_with (lookup path union) entry ≡ true
        → (v : NamespaceEntry) × (lookup p (insert path entry union) ≡ some v)
          × (v.directory ≡ d.directory)
    keep true here agreed =
        let met =
          ap (λ o. agrees_with o entry)
            (ap (λ q. lookup q union) ((text_eq_iff path p).0 here) ∙ at) in
        (
          entry,
          rw (lookup-insert path p entry union, here) refl,
          sym (same_bool→eq d.directory entry.directory (sym met ∙ agreed)),
        )
    keep false away agreed = (d, rw (lookup-insert path p entry union, away) at, refl)

union_with-joins :
    (union android out : Namespace) (q : Text) (e : NamespaceEntry)
    → union_with union android ≡ ok out
    → lookup q android ≡ some e
    → (u : NamespaceEntry) × (lookup q out ≡ some u) × (u.directory ≡ e.directory)
unfolding union_with lookup
union_with-joins union [] out q e h at = cc
union_with-joins union ((path, entry) ∷ rest) out q e h at =
    let (_, others) =
      ensure-bind (agrees_with (lookup path union) entry) file_directory_collision _ h in
    elim (if-split (text_eq path q) _ _ at) [
      | inl (here, is) ↦
          let same : entry ≡ e = cc in
          let there : lookup q (insert path entry union) ≡ some e =
            rw (lookup-insert path q entry union, here) (ap some same) in
          union_with-keeps (insert path entry union) rest out q e others there
      | inr (_, there) ↦ union_with-joins (insert path entry union) rest out q e others there
    ]

-- Where the names of both devices are accepted together, a name of the PC and a name of the phone, each a path or a
-- directory on the way to one, that fold to one are the same name, and both a directory or both a file.
pub validate_cross_namespace-apart :
    (lower : Text → Text) (pc android : Namespace) (p q : Text) (d e : NamespaceEntry)
    → validate_cross_namespace lower pc android ≡ ok tt
    → lookup p pc ≡ some d
    → lookup q android ≡ some e
    → All
        (λ (m, k). All (λ (n, l). lower m ≡ lower n → (m ≡ n) × (k ≡ l)) (ends q e.directory))
        (ends p d.directory)
unfolding validate_cross_namespace validate_namespace
validate_cross_namespace-apart lower pc android p q d e h at there =
    let (_, checked_android) = then-ok (validate_namespace lower pc) _ h in
    let (_, joined) = then-ok (validate_namespace lower android) _ checked_android in
    let (union, unites, valid) = >>=-eq-ok (union_with pc android) _ joined in
    let (_, sized) =
      then-ok (ensure (leb (length (only_files union)) max_files) too_many_files) _ valid in
    let (_, noting) =
      then-ok (ensure (leb (length union) (max_files * 2)) too_many_entries) _ sized in
    let (noted, notes, _) = >>=-eq-ok (note_entries lower [] union) _ noting in
    let (u, u_there, u_kind) = union_with-keeps pc android union p d unites at in
    let (v, v_there, v_kind) = union_with-joins pc android union q e unites there in
    let left = note_entries-all lower [] union noted p notes u_there in
    let right = note_entries-all lower [] union noted q notes v_there in
    subst
      (λ b.
        All (λ (m, k). All (λ (n, l). lower m ≡ lower n → (m ≡ n) × (k ≡ l)) (ends q e.directory))
          (ends p b))
      u_kind
      (subst
        (λ b.
          All (λ (m, k). All (λ (n, l). lower m ≡ lower n → (m ≡ n) × (k ≡ l)) (ends q b))
            (ends p u.directory))
        v_kind
        (All-map
          (λ (m, k) one.
            All-map (λ (n, l) two same. meet m n k l noted one two same) (ends q v.directory) right)
          (ends p u.directory) left))
  where
    meet :
        (m n : Text) (k l : Bool) (noted : Names)
        → Noted lower noted (m, k)
        → Noted lower noted (n, l)
        → lower m ≡ lower n
        → (m ≡ n) × (k ≡ l)
    meet m n k l noted one two same =
        let z : some (m, k) ≡ some (n, l) = sym one ∙ ap (λ s. lookup s noted) same ∙ two in
        ground (arith, z)
