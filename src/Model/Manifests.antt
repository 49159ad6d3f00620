-- ===== src/Model/Manifests.antt =====
-- What one manifest, and those of both devices together, may hold: `validate_manifest` and
-- `validate_cross_peer_namespace` of crates/rowd-core/src/model.rs. `lower` is `str::to_lowercase`.
pub mod Collisions
use rowd.Base.{
  ℕ, Text, Map, lookup, insert, text_eq, Option, none, some, Bool, true, false, not, ◌&&◌, ◌==◌,
  leb, List, [], ◌∷◌, ◌++◌, map, length, any, all, Result, ok, err, ensure, ◌>>◌, ◌>>=◌,
  if◌then◌else◌,
}
use rowd.Model.{Entry, Manifest, max_file, max_files}
use rowd.Paths.{PathError, validate_path, validate_hash, slash}

pub data ManifestError : Type 0 where
  too_many_files too_many_entries file_too_large case_colliding : ManifestError
  file_directory_collision : ManifestError
  bad_path : PathError → ManifestError

abbrev pub on_path : Result PathError (Unit {0}) → Result ManifestError (Unit {0})
on_path (ok u) = ok tt
on_path (err e) = err (bad_path e)

-- `path.match_indices('/')`: what stands before each slash.
unfoldable pub parents : Text → List Text
parents [] = []
parents (c ∷ s) = let rest = map (λ t. c ∷ t) (parents s) in if c == slash then [] ∷ rest else rest

abbrev has : List Text → Text → Bool
has names name = any (text_eq name) names

abbrev is_there {ℓ} : {V : Type ℓ} → Option V → Bool
is_there none = false
is_there (some v) = true

-- The names of both devices by their folded form; `previous == path` where one was there.
abbrev pub agrees : Option Text → Text → Bool
agrees none path = true
agrees (some previous) path = text_eq previous path

module _ (lower : Text → Text) where
  unfoldable pub validate_entry :
      Manifest → List Text → Text → Entry → Result ManifestError (Unit {0})
  unfolding parents
  validate_entry files folded path entry = do
    on_path (validate_path path)
    on_path (validate_hash entry.hash)
    ensure (leb entry.size max_file) file_too_large
    ensure (not (has folded (lower path))) case_colliding
    ensure (all (λ parent. not (is_there (lookup parent files))) (parents path))
        file_directory_collision

  unfoldable pub validate_entries :
      Manifest → List Text → Manifest → Result ManifestError (Unit {0})
  unfolding validate_entry
  validate_entries files folded [] = ok tt
  validate_entries files folded ((path, entry) ∷ rest) =
      validate_entry files folded path entry >> validate_entries files (lower path ∷ folded) rest

  unfoldable pub validate_manifest : Manifest → Result ManifestError (Unit {0})
  unfolding validate_entries
  validate_manifest files =
      ensure (leb (length files) max_files) too_many_files >> validate_entries files [] files

  unfoldable pub fold_names : Map Text → List Text → Result ManifestError (Map Text)
  fold_names names [] = ok names
  fold_names names (path ∷ rest) =
      ensure (agrees (lookup (lower path) names) path) case_colliding
      >> fold_names (insert (lower path) path names) rest

abbrev pub keys {ℓ} : {V : Type ℓ} → Map V → List Text
keys m = map (λ (k, v). k) m

-- No name has another one for a directory.
unfoldable pub validate_names : Map Text → Result ManifestError (Unit {0})
unfolding parents
validate_names names =
    ensure
      (all (λ folded. all (λ parent. not (is_there (lookup parent names))) (parents folded))
        (keys names))
      file_directory_collision

unfoldable pub validate_cross_peer_namespace :
    (Text → Text) → Manifest → Manifest → Result ManifestError (Unit {0})
unfolding fold_names validate_names
validate_cross_peer_namespace lower pc android =
    fold_names lower [] (keys pc ++ keys android) >>= λ names. validate_names names
