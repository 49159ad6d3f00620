-- ===== src/Examples/Rounds.antt =====
-- A round of crates/rowd-core/src/sync.rs over two files: both devices edited `a`, the phone `b`.
use rowd.Base.{
  ℕ, zero, suc, false, Text, codes, none, some, List, [], ◌∷◌, ◌≡◌, ◌≢◌, refl, Map, ok, err, lookup,
  inl, inr, insert, remove, text_eq, text_lt, text_eq→≢, ap,
}
use rowd.Config.{bidirectional}
use rowd.Model.{hash_of, Entry, Manifest, reconcile, opt_eq}
use rowd.Round.Batch.{read_batch}
use rowd.Round.Exec.{report, ◌>>=◌}
use rowd.Round.Decide.{decide}
use rowd.Paths.{validate_path, validate_hash}
use rowd.Model.Conflicts.{conflict_path, starts_with}
use rowd.Round.{Round, begin, too_many_staged_files, too_many_staged_bytes, unwrapped_none}
use rowd.Round.Transfer.{
  Env, snapshot_local, install_local, remote_snapshot, remote_install, acknowledge, commit_base,
  drain_gets, drain_puts,
}
use rowd.Round.Loop.{coordinate}
use rowd.Round.Edits.{coordinate-keeps_edit}
use rowd.Round.Merge.{merged}
use rowd.Round.Merge.Whole.{versions, coordinate-merged}
use rowd.Round.Merge.Agreement.{coordinate-agrees}
use rowd.Round.Windows.{Within, coordinate-IsFair}

abbrev pub repeat : ℕ → ℕ → Text
repeat zero c = []
repeat (suc n) c = c ∷ repeat n c

-- Hashes of 64 times one digit.
abbrev pub hash : ℕ → Text
hash c = repeat 64 c

abbrev pub file : ℕ → Entry
file c = record { hash = hash c; size = 10 }

abbrev pc_files : Manifest
pc_files = (codes "a", file b'2') ∷ (codes "b", file b'1') ∷ []

abbrev phone_files : Manifest
phone_files = (codes "a", file b'3') ∷ (codes "b", file b'2') ∷ []

abbrev committed : Map Text
committed = (codes "a", hash b'1') ∷ (codes "b", hash b'1') ∷ []

abbrev copy : Text
copy = codes "Rowd Conflicts/a/3333333333333333333333333333333333333333333333333333333333333333/a"

abbrev env : Env
env = record {
  mode = bidirectional;
  remap = none;
  excluded = λ path. false;
  defers = λ path. false;
  digest = λ path. path;
  pc = pc_files;
  android = phone_files;
}

abbrev paths : List Text
paths = codes "a" ∷ codes "b" ∷ []

abbrev run : Round
run = (coordinate env paths (begin committed [] pc_files phone_files)).1

abbrev agreed : Manifest
agreed = (copy, file b'3') ∷ (codes "a", file b'2') ∷ (codes "b", file b'2') ∷ []

-- The round ends, and both devices hold the same files, the phone's edit of `a` beside the PC's.
run-result : (coordinate env paths (begin committed [] pc_files phone_files)).0 ≡ ok tt
unfolding report read_batch coordinate begin ◌>>=◌ text_eq decide lookup reconcile opt_eq
    snapshot_local install_local remote_snapshot remote_install acknowledge commit_base insert
    validate_path validate_hash conflict_path starts_with remove drain_gets drain_puts text_lt
run-result = refl

run-local : run.local ≡ agreed
unfolding report read_batch coordinate begin ◌>>=◌ text_eq decide lookup reconcile opt_eq
    snapshot_local install_local remote_snapshot remote_install acknowledge commit_base insert
    validate_path validate_hash conflict_path starts_with remove drain_gets drain_puts text_lt
run-local = refl

run-peer : run.peer ≡ agreed
unfolding report read_batch coordinate begin ◌>>=◌ text_eq decide lookup reconcile opt_eq
    snapshot_local install_local remote_snapshot remote_install acknowledge commit_base insert
    validate_path validate_hash conflict_path starts_with remove drain_gets drain_puts text_lt
run-peer = refl

edited : lookup (codes "a") committed ≢ some (hash b'2')
unfolding lookup text_eq
edited e = text_eq→≢ (hash b'1') (hash b'2') refl (ap (λ o. elim o [ none ↦ [] | some t ↦ t ]) e)

coordinate-keeps_edit_example : lookup (codes "a") run.local ≡ some (file b'2')
unfolding starts_with lookup text_eq
coordinate-keeps_edit_example =
    coordinate-keeps_edit env paths committed [] pc_files phone_files (codes "a") (file b'2') refl
      ((text_eq→≢ (codes "b") (codes "a") refl, tt), (tt, tt)) refl refl edited

coordinate-IsFair_example :
    Within env run
    × ((coordinate env paths (begin committed [] pc_files phone_files)).0
        ≢ err too_many_staged_files)
    × ((coordinate env paths (begin committed [] pc_files phone_files)).0
        ≢ err too_many_staged_bytes)
    × ((coordinate env paths (begin committed [] pc_files phone_files)).0 ≢ err unwrapped_none)
coordinate-IsFair_example = coordinate-IsFair env paths committed [] pc_files phone_files

coordinate-merged_example :
    versions (codes "a") run
    ≡ merged
        (decide bidirectional none
          (lookup (codes "a") committed)
          (lookup (codes "a") pc_files)
          (lookup (codes "a") phone_files))
        (lookup (codes "a") pc_files)
        (lookup (codes "a") phone_files)
        (lookup (codes "a") committed)
unfolding starts_with text_eq
coordinate-merged_example =
    coordinate-merged env paths committed [] (codes "a")
      ((text_eq→≢ (codes "b") (codes "a") refl, tt), (tt, tt)) (inl refl) refl refl run-result

coordinate-agrees_example :
    (hash_of (lookup (codes "b") run.local) ≡ lookup (codes "b") run.base)
    × (hash_of (lookup (codes "b") run.peer) ≡ lookup (codes "b") run.base)
unfolding starts_with text_eq
coordinate-agrees_example =
    coordinate-agrees env paths committed [] (codes "b") refl
      ((text_eq→≢ (codes "b") (codes "a") refl, tt), (tt, tt)) (inr (inl refl)) refl refl run-result
