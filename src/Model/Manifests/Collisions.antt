-- ===== src/Model/Manifests/Collisions.antt =====
-- Names that a manifest of crates/rowd-core/src/model.rs may not hold together.
use rowd.Base.{
  Text, Map, lookup, insert, lookup-insert, All, All-split, text_eq, text_eq_iff, text_eq_refl,
  some, Bool, true, false, not, ◌&&◌, ◌==◌, leb, List, [], ◌∷◌, ◌++◌, map, all, Result, ok, err,
  ensure, ensure-ok, ensure-bind, ◌>>◌, >>=-eq-ok, if◌then◌else◌, if-split, inl, inr, ◌≡◌, ◌≢◌,
  refl, sym, ap, ◌∙◌, arith, subst,
}
use rowd.Model.{Entry, Manifest, max_file}
use rowd.Paths.{validate_path, validate_hash, slash}
use rowd.Model.Manifests.{
  ManifestError, case_colliding, file_directory_collision, file_too_large, on_path, parents, has,
  is_there, validate_entry, validate_entries, validate_manifest, agrees, fold_names, keys,
  validate_cross_peer_namespace,
}

all-map :
    {A B : Type 0} (f : A → B) (p : B → Bool) (xs : List A)
    → all p (map f xs) ≡ all (λ x. p (f x)) xs
all-map f p [] = refl
all-map f p (x ∷ xs) = ap (λ b. p (f x) && b) (all-map f p xs)

all-if :
    (b : Bool) (p : Text → Bool) (xs : List Text)
    → all p (if b then [] ∷ xs else xs) ≡ true
    → (b ≡ true → p [] ≡ true) × (all p xs ≡ true)
all-if true p xs h = ground (arith, h)
all-if false p xs h = ground (arith, h)

-- What stands before a slash is among the parents.
parents-slash :
    (q : Text) (t : Text) (p : Text → Bool) → all p (parents (q ++ slash ∷ t)) ≡ true → p q ≡ true
unfolding parents
parents-slash [] t p h = (all-if (slash == slash) p _ h).0 refl
parents-slash (c ∷ q) t p h =
    let rest = (all-if (c == slash) p _ h).1 in
    parents-slash q t (λ s. p (c ∷ s)) (sym (all-map (λ s. c ∷ s) p _) ∙ rest)

then-ok : (m k : Result ManifestError (Unit {0})) → (m >> k) ≡ ok tt → (m ≡ ok tt) × (k ≡ ok tt)
then-ok (ok u) k h = (refl, h)
then-ok (err e) k h = cc

module _ (lower : Text → Text) (files : Manifest) where
  entry-ok :
      (folded : List Text) (path : Text) (entry : Entry)
      → validate_entry lower files folded path entry ≡ ok tt
      → (has folded (lower path) ≡ false)
        × (all (λ parent. not (is_there (lookup parent files))) (parents path) ≡ true)
  unfolding validate_entry
  entry-ok folded path entry h =
      let collide =
        ensure (all (λ parent. not (is_there (lookup parent files))) (parents path))
          file_directory_collision in
      let fold = ensure (not (has folded (lower path))) case_colliding >> collide in
      let sized = ensure (leb entry.size max_file) file_too_large >> fold in
      let hashed = on_path (validate_hash entry.hash) >> sized in
      let (_, checked_hash) = then-ok (on_path (validate_path path)) hashed h in
      let (_, checked_size) = then-ok (on_path (validate_hash entry.hash)) sized checked_hash in
      let (_, checked_case) =
        ensure-bind (leb entry.size max_file) file_too_large fold checked_size in
      let (fresh, checked_parents) =
        ensure-bind (not (has folded (lower path))) case_colliding collide checked_case in
      (ground (arith, fresh), ensure-ok _ file_directory_collision checked_parents)

  entries-split :
      (folded : List Text) (path : Text) (entry : Entry) (rest : Manifest)
      → validate_entries lower files folded ((path, entry) ∷ rest) ≡ ok tt
      → (validate_entry lower files folded path entry ≡ ok tt)
        × (validate_entries lower files (lower path ∷ folded) rest ≡ ok tt)
  unfolding validate_entries
  entries-split folded path entry rest h =
      then-ok (validate_entry lower files folded path entry) _ h

  -- Each later file is checked against what was folded before it.
  entries-fresh :
      (folded : List Text) (rest : Manifest) (q : Text) {e : Entry}
      → validate_entries lower files folded rest ≡ ok tt
      → lookup q rest ≡ some e
      → has folded (lower q) ≡ false
  unfolding lookup
  entries-fresh folded [] q h at = cc
  entries-fresh folded ((path, entry) ∷ rest) q h at =
      let (first, others) = entries-split folded path entry rest h in
      elim (if-split (text_eq path q) _ _ at) [
        | inl (here, _) ↦
            subst (λ s. has folded (lower s) ≡ false) ((text_eq_iff path q).0 here)
              (entry-ok folded path entry first).0
        | inr (_, there) ↦ ground (arith, entries-fresh (lower path ∷ folded) rest q others there)
      ]

  clash :
      (folded : List Text) (path : Text) (rest : Manifest) (p q : Text) {e : Entry}
      → validate_entries lower files (lower path ∷ folded) rest ≡ ok tt
      → lookup q rest ≡ some e
      → text_eq path p ≡ true
      → lower p ≢ lower q
  clash folded path rest p q h at here same =
      let k = entries-fresh (lower path ∷ folded) rest q h at in
      let path_is : lower path ≡ lower q = ap lower ((text_eq_iff path p).0 here) ∙ same in
      ground (arith, k, text_eq_iff (lower q) (lower path), path_is)

  entries-apart :
      (folded : List Text) (rest : Manifest) (p q : Text) {d e : Entry}
      → validate_entries lower files folded rest ≡ ok tt
      → lookup p rest ≡ some d
      → lookup q rest ≡ some e
      → lower p ≡ lower q
      → p ≡ q
  unfolding lookup
  entries-apart folded [] p q h at there same = cc
  entries-apart folded ((path, entry) ∷ rest) p q h at there same =
      let (_, others) = entries-split folded path entry rest h in
      elim (if-split (text_eq path p) _ _ at) [
        | inl (p_here, _) ↦ elim (if-split (text_eq path q) _ _ there) [
          | inl (q_here, _) ↦ sym ((text_eq_iff path p).0 p_here) ∙ (text_eq_iff path q).0 q_here
          | inr (_, q_later) ↦ absurd (clash folded path rest p q others q_later p_here same)
        ]
        | inr (_, p_later) ↦ elim (if-split (text_eq path q) _ _ there) [
          | inl (q_here, _) ↦ absurd (clash folded path rest q p others p_later q_here (sym same))
          | inr (_, q_later) ↦
              entries-apart (lower path ∷ folded) rest p q others p_later q_later same
        ]
      ]

  entries-parents :
      (folded : List Text) (rest : Manifest) (q : Text) {e : Entry}
      → validate_entries lower files folded rest ≡ ok tt
      → lookup q rest ≡ some e
      → all (λ parent. not (is_there (lookup parent files))) (parents q) ≡ true
  unfolding lookup
  entries-parents folded [] q h at = cc
  entries-parents folded ((path, entry) ∷ rest) q h at =
      let (first, others) = entries-split folded path entry rest h in
      elim (if-split (text_eq path q) _ _ at) [
        | inl (here, _) ↦
            subst (λ s. all (λ parent. not (is_there (lookup parent files))) (parents s) ≡ true)
              ((text_eq_iff path q).0 here) (entry-ok folded path entry first).1
        | inr (_, there) ↦ entries-parents (lower path ∷ folded) rest q others there
      ]

-- In a manifest that is accepted, two names that fold to one are the same, and none stands under another file's name.
pub validate_manifest-apart :
    (lower : Text → Text) (files : Manifest) (p q : Text) (d e : Entry)
    → validate_manifest lower files ≡ ok tt
    → lookup p files ≡ some d
    → lookup q files ≡ some e
    → (lower p ≡ lower q → p ≡ q) × ((t : Text) → q ≢ p ++ slash ∷ t)
unfolding validate_manifest
validate_manifest-apart lower files p q d e h at there =
    let (_, entries) = ensure-bind _ _ _ h in
    (
      entries-apart lower files [] files p q entries at there,
      λ t under.
          let parents_ok = entries-parents lower files [] files q entries there in
          let missing =
            parents-slash p t (λ parent. not (is_there (lookup parent files)))
              (rw under at parents_ok) in
          ground (arith, rw at at missing),
    )

abbrev or_names : Result ManifestError (Map Text) → Map Text
or_names (ok names) = names
or_names (err e) = []

module _ (lower : Text → Text) where
  fold_names-keeps :
      (names : Map Text) (paths : List Text) (folded : Map Text) (k v : Text)
      → fold_names lower names paths ≡ ok folded
      → lookup k names ≡ some v
      → lookup k folded ≡ some v
  unfolding fold_names
  fold_names-keeps names [] folded k v h at = subst (λ m. lookup k m ≡ some v) (ap or_names h) at
  fold_names-keeps names (path ∷ rest) folded k v h at =
      let (agreed, others) =
        ensure-bind (agrees (lookup (lower path) names) path) case_colliding _ h in
      fold_names-keeps (insert (lower path) path names) rest folded k v others
        (keep (text_eq (lower path) k) refl agreed)
    where
      keep :
          (b : Bool)
          → text_eq (lower path) k ≡ b
          → agrees (lookup (lower path) names) path ≡ true
          → lookup k (insert (lower path) path names) ≡ some v
      keep true here agreed =
          let same =
            (text_eq_iff v path).0 (rw ((text_eq_iff (lower path) k).0 here, at) at agreed) in
          rw (lookup-insert (lower path) k path names, here) (ap some (sym same))
      keep false away agreed = rw (lookup-insert (lower path) k path names, away) at

  fold_names-all :
      (names : Map Text) (paths : List Text) (folded : Map Text)
      → fold_names lower names paths ≡ ok folded
      → All (λ path. lookup (lower path) folded ≡ some path) paths
  unfolding fold_names
  fold_names-all names [] folded h = tt
  fold_names-all names (path ∷ rest) folded h =
      let (_, others) = ensure-bind (agrees (lookup (lower path) names) path) case_colliding _ h in
      (
        fold_names-keeps (insert (lower path) path names) rest folded (lower path) path others (
            ground (
              arith,
              lookup-insert (lower path) (lower path) path names,
              text_eq_refl (lower path),
            )),
        fold_names-all (insert (lower path) path names) rest folded others,
      )

keys-at :
    (P : Text → Type 0) (m : Manifest) (p : Text) {d : Entry}
    → All P (keys m)
    → lookup p m ≡ some d
    → P p
unfolding lookup
keys-at P [] p all at = cc
keys-at P ((j, e) ∷ m) p all at = elim (if-split (text_eq j p) _ _ at) [
  | inl (here, _) ↦ subst P ((text_eq_iff j p).0 here) all.0
  | inr (_, there) ↦ keys-at P m p all.1 there
]

-- Where the manifests of both devices are accepted together, a name of the PC and a name of the phone that fold to one are
-- the same.
validate_cross_peer_namespace-apart :
    (lower : Text → Text) (pc android : Manifest) (p q : Text) (d e : Entry)
    → validate_cross_peer_namespace lower pc android ≡ ok tt
    → lookup p pc ≡ some d
    → lookup q android ≡ some e
    → lower p ≡ lower q
    → p ≡ q
unfolding validate_cross_peer_namespace
validate_cross_peer_namespace-apart lower pc android p q d e h at there same =
    let (folded, folds, _) = >>=-eq-ok (fold_names lower [] (keys pc ++ keys android)) _ h in
    let (left, right) =
      All-split _ (keys pc) (keys android)
        (fold_names-all lower [] (keys pc ++ keys android) folded folds) in
    let one = keys-at _ pc p left at in
    let two = keys-at _ android q right there in
    let k : some p ≡ some q = sym one ∙ ap (λ s. lookup s folded) same ∙ two in cc
