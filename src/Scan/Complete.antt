-- ===== src/Scan/Complete.antt =====
-- What the chunks of a scan amount to when its stream ends: `ScanStream` of crates/rowd-core/src/protocol.rs.
use rowd.Base.{
  Bool-cases, ◌≤◌, Text, lookup, text_eq, text_eq_iff, none, some, Bool, true, false, not, ◌&&◌,
  ◌==◌, List, [], ◌∷◌, ◌++◌, length, has, IsOnce, IsOnce-append, IsWithin, IsWithin-all, All,
  All-append, append_assoc, append-nil, Result, ok, err, ensure-bind, or_err, or_err-ok, >>=-eq-ok,
  if◌then◌else◌, if-split, inl, inr, ◌≡◌, refl, sym, ap, subst, ◌∙◌, arith,
}
use rowd.Model.{Entry, Manifest}
use rowd.Model.Manifests.{keys}
use rowd.Model.Namespaces.{NamespaceEntry, Namespace, only_files}
use rowd.Scan.{
  ScanError, ScanStream, Event, Pulled, absent_path, differs_or_duplicated, check_hashes,
  receive_namespace, next_with_control,
}
use rowd.Scan.Opens.{receive_namespace-IsOpen}
use rowd.Scan.Pulls.{Took, next_with_control-Took}

-- A hashed file stands in the namespace as a file of that size.
abbrev pub StandsIn : Namespace → Text → Entry → Type 0
StandsIn namespace path e =
    (d : NamespaceEntry) × (lookup path namespace ≡ some d)
    × (d.directory ≡ false)
    × (d.size ≡ e.size)

abbrev AllStand : Namespace → Manifest → Type 0
AllStand namespace files = All (λ (path, e). StandsIn namespace path e) files

abbrev or_seen : List Text → Result ScanError (List Text) → List Text
or_seen after (ok seen) = seen
or_seen after (err e) = after

check_hashes-ok :
    (namespace : Namespace) (seen : List Text) (files : Manifest) (after : List Text)
    → check_hashes namespace seen files ≡ ok after
    → IsOnce seen
    → AllStand namespace files × (after ≡ seen ++ keys files) × IsOnce after
unfolding check_hashes
check_hashes-ok namespace seen [] after h once = (
  tt,
  sym (ap (or_seen after) h) ∙ sym (append-nil seen),
  subst IsOnce (ap (or_seen after) h) once,
)
check_hashes-ok namespace seen ((path, e) ∷ files) after h once =
    let (d, found, checks) = >>=-eq-ok (or_err (lookup path namespace) absent_path) _ h in
    let (passes, others) =
      ensure-bind (not d.directory && (d.size == e.size) && not (has seen path))
        differs_or_duplicated _ checks in
    let (stand, is, once_after) =
      check_hashes-ok namespace (seen ++ (path ∷ [])) files after others
        (IsOnce-append seen path once (ground (arith, passes))) in
    (
      ((d, or_err-ok _ _ found, ground (arith, passes), ground (arith, passes)), stand),
      is ∙ append_assoc seen (path ∷ []) (keys files),
      once_after,
    )

-- Calls that gave these files in all, whatever came between them.
pub data Pulls (lower : Text → Text) (s : ScanStream) : Manifest → ScanStream → Type 0 where
  begun : Pulls lower s [] s
  pulled :
      {files : Manifest} {t : ScanStream}
      → Pulls lower s files t
      → (events : List Event) (p : Pulled) (chunk : Manifest)
      → next_with_control lower t events ≡ ok p
      → p.files ≡ some chunk
      → Pulls lower s (files ++ chunk) p.stream

pub record Counts (s : ScanStream) (files : Manifest) (t : ScanStream) : Type 0 where
  pub namespace_is : t.namespace ≡ s.namespace
  pub seen_is : t.seen ≡ keys files
  pub once : IsOnce t.seen
  pub stand : AllStand s.namespace files

keys-append : (m n : Manifest) → keys (m ++ n) ≡ keys m ++ keys n
keys-append [] n = refl
keys-append ((k, v) ∷ m) n = ap (λ ks. k ∷ ks) (keys-append m n)

module _ (lower : Text → Text) (s : ScanStream) where
  Pulls-Counts :
      (files : Manifest) (t : ScanStream) → s.seen ≡ [] → Pulls lower s files t → Counts s files t
  Pulls-Counts _ _ fresh begun = record {
    namespace_is = refl;
    seen_is = fresh;
    once = subst IsOnce (sym fresh) tt;
    stand = tt;
  }
  Pulls-Counts _ _ fresh (pulled {files} {t} before events p chunk h gave) =
      let counts = Pulls-Counts files t fresh before in
      let (seen, passes, is) =
        subst (λ o. Took t o p.stream) gave (next_with_control-Took lower t events h) in
      let (stand, seen_is, once) =
        check_hashes-ok t.namespace t.seen chunk seen passes counts.once in
      record {
        namespace_is = ap (λ u. u.namespace) is ∙ counts.namespace_is;
        seen_is =
            ap (λ u. u.seen) is
            ∙ seen_is
            ∙ ap (λ ks. ks ++ keys chunk) counts.seen_is
            ∙ sym (keys-append files chunk);
        once = subst (λ u. IsOnce u.seen) (sym is) once;
        stand =
            All-append _ files chunk counts.stand
              (subst (λ n. AllStand n chunk) counts.namespace_is stand);
      }

only_files-has :
    (path : Text) (namespace : Namespace) {d : NamespaceEntry}
    → lookup path namespace ≡ some d
    → d.directory ≡ false
    → has (only_files namespace) path ≡ true
unfolding lookup only_files has
only_files-has path [] h file = cc
only_files-has path ((k, v) ∷ rest) {d} h file = elim (if-split (text_eq k path) _ _ h) [
  | inl (here, is) ↦
      let same : v ≡ d = cc in
      let flat = ap (λ u. u.directory) same ∙ file in
      ground (arith, text_eq_iff k path, text_eq_iff path k, here, flat)
  | inr (_, there) ↦ has-if v.directory (only_files-has path rest there file)
]
  where
    has-if :
        (b : Bool)
        → has (only_files rest) path ≡ true
        → has (if b then only_files rest else k ∷ only_files rest) path ≡ true
    has-if true h = h
    has-if false h = ground (arith, h)

keys-has :
    (path : Text) (files : Manifest)
    → has (keys files) path ≡ true
    → (e : Entry) × (lookup path files ≡ some e)
unfolding lookup has
keys-has path [] h = cc
keys-has path ((k, v) ∷ rest) h = elim (Bool-cases (text_eq k path)) [
  | inl here ↦ (v, rw here refl)
  | inr away ↦
      let later : has (keys rest) path ≡ true =
        ground (arith, text_eq_iff k path, text_eq_iff path k, away, h) in
      let (e, at) = keys-has path rest later in (e, rw away at)
]

stands-at :
    (namespace : Namespace) (files : Manifest) (path : Text) {e : Entry}
    → AllStand namespace files
    → lookup path files ≡ some e
    → StandsIn namespace path e
unfolding lookup
stands-at namespace [] path stand at = cc
stands-at namespace ((k, v) ∷ rest) path {e} stand at = elim (if-split (text_eq k path) _ _ at) [
  | inl (here, is) ↦
      let same : v ≡ e = cc in
      subst (λ u. StandsIn namespace path u) same
        (subst (λ q. StandsIn namespace q v) ((text_eq_iff k path).0 here) stand.0)
  | inr (_, there) ↦ stands-at namespace rest path stand.1 there
]

-- All files of the namespace came, each once.
abbrev pub AllCame : ScanStream → Manifest → Type 0
AllCame s files =
    ((path : Text) (e : Entry) → lookup path files ≡ some e → StandsIn s.namespace path e)
    × ((path : Text) (d : NamespaceEntry)
        → lookup path s.namespace ≡ some d
        → d.directory ≡ false
        → (e : Entry) × (lookup path files ≡ some e) × (e.size ≡ d.size))
    × IsOnce (keys files)

Counts-AllCame :
    (s : ScanStream) (files : Manifest) (t : ScanStream)
    → Counts s files t
    → length t.seen ≡ length (only_files t.namespace)
    → AllCame s files
Counts-AllCame s files t counts as_many = (
  stands,
  λ path d at file.
      let (e, there) = keys-has path files (all path (only_files-has path s.namespace at file)) in
      let (d', at', _, size) = stands path e there in
      let found : some d ≡ some d' = sym at ∙ at' in
      let same : d ≡ d' = cc in (e, there, sym size ∙ ap (λ u. u.size) (sym same)),
  once,
)
  where
    stands : (path : Text) (e : Entry) → lookup path files ≡ some e → StandsIn s.namespace path e
    stands path e at = stands-at s.namespace files path counts.stand at

    once : IsOnce (keys files)
    once = subst IsOnce counts.seen_is counts.once

    small : length (only_files s.namespace) ≤ length (keys files)
    small = omega (
      arith,
      as_many,
      ap (λ n. length (only_files n)) counts.namespace_is,
      ap (λ l. length l) counts.seen_is,
    )

    all : IsWithin (only_files s.namespace) (keys files)
    all =
        IsWithin-all (keys files) (only_files s.namespace) once
          (λ name at.
            let (e, there) = keys-has name files at in
            let (d, found, file, _) = stands name e there in
            only_files-has name s.namespace found file)
          small

-- Where a scan was opened, calls gave some files in all, whatever was read between and within them, and a last call
-- tells the end of the stream: those are all the files of the namespace that was sent and no directory, each once and with
-- the size it has there.
pub next_with_control_complete :
    (lower : Text → Text) (digest : Namespace → Text) (before : List Event) (s : ScanStream)
    → (after events : List Event) (files : Manifest) (t : ScanStream) (p : Pulled)
    → receive_namespace lower digest before ≡ ok (s, after)
    → Pulls lower s files t
    → next_with_control lower t events ≡ ok p
    → p.files ≡ none
    → AllCame s files
next_with_control_complete lower digest before s after events files t p opens pulls h ends =
    let unseen = (receive_namespace-IsOpen lower digest before s after opens).unseen in
    let (as_many, _) =
      subst (λ o. Took t o p.stream) ends (next_with_control-Took lower t events h) in
    Counts-AllCame s files t (Pulls-Counts lower s files t unseen pulls) as_many
