-- ===== src/Model/Namespaces.antt =====
-- The names of a Share before its files are hashed: `Namespace`, `manifest_namespace`,
-- `validate_namespace` and `validate_cross_namespace` of crates/rowd-core/src/model.rs. `lower` is
-- `str::to_lowercase`.
pub mod Apart
use rowd.Base.{
  ℕ, ◌*◌, Text, Map, lookup, insert, text_eq, Option, none, some, Bool, true, false, not, ◌&&◌,
  ◌||◌, leb, List, [], ◌∷◌, ◌++◌, map, length, Result, ok, err, ensure, ◌>>◌, ◌>>=◌, if◌then◌else◌,
}
use rowd.Model.{Entry, Manifest, max_file, max_files}
use rowd.Model.Manifests.{
  ManifestError, too_many_files, too_many_entries, file_too_large, case_colliding,
  file_directory_collision, on_path, parents,
}
use rowd.Paths.{validate_path}

pub record NamespaceEntry : Type 0 where
  pub size : ℕ
  pub modified : ℕ
  pub directory : Bool

abbrev pub Namespace : Type 0
Namespace = Map NamespaceEntry

abbrev pub file_entry : Entry → NamespaceEntry
file_entry e = record { size = e.size; modified = 0; directory = false }

unfoldable pub manifest_namespace : Manifest → Namespace
manifest_namespace [] = []
manifest_namespace ((path, entry) ∷ files) = (path, file_entry entry) ∷ manifest_namespace files

-- `==` on `bool`
abbrev pub same_bool : Bool → Bool → Bool
same_bool a b = if a then b else not b

-- `values().filter(|e| !e.directory)`
unfoldable pub only_files : Namespace → List Text
only_files [] = []
only_files ((path, entry) ∷ rest) =
    let files = only_files rest in if entry.directory then files else path ∷ files

-- The prefixes of a path that end before a slash, which are directories, and the path.
unfoldable pub ends : Text → Bool → List (Text × Bool)
unfolding parents
ends path directory = map (λ t. (t, true)) (parents path) ++ ((path, directory) ∷ [])

-- What the earlier insertion under the folded name left there.
abbrev pub meets : Option (Text × Bool) → Text → Bool → Result ManifestError (Unit {0})
meets none name directory = ok tt
meets (some (previous, was_directory)) name directory =
    ensure (text_eq previous name) case_colliding
    >> ensure (same_bool was_directory directory) file_directory_collision

module _ (lower : Text → Text) where
  unfoldable pub note_ends :
      Map (Text × Bool) → List (Text × Bool) → Result ManifestError (Map (Text × Bool))
  note_ends names [] = ok names
  note_ends names ((name, directory) ∷ rest) =
      meets (lookup (lower name) names) name directory
      >> note_ends (insert (lower name) (name, directory) names) rest

  unfoldable pub note_entry :
      Map (Text × Bool) → Text → NamespaceEntry → Result ManifestError (Map (Text × Bool))
  unfolding ends note_ends
  note_entry names path entry = do
    on_path (validate_path path)
    ensure (entry.directory || leb entry.size max_file) file_too_large
    note_ends names (ends path entry.directory)

  unfoldable pub note_entries :
      Map (Text × Bool) → Namespace → Result ManifestError (Map (Text × Bool))
  unfolding note_entry
  note_entries names [] = ok names
  note_entries names ((path, entry) ∷ rest) =
      note_entry names path entry >>= λ noted. note_entries noted rest

  unfoldable pub validate_namespace : Namespace → Result ManifestError (Unit {0})
  unfolding only_files note_entries
  validate_namespace files =
      ensure (leb (length (only_files files)) max_files) too_many_files
      >> (ensure (leb (length files) (max_files * 2)) too_many_entries
          >> (note_entries [] files >>= λ _. ok tt))

-- `previous.directory == entry.directory`, where there is a previous entry
abbrev pub agrees_with : Option NamespaceEntry → NamespaceEntry → Bool
agrees_with none entry = true
agrees_with (some previous) entry = same_bool previous.directory entry.directory

unfoldable pub union_with : Namespace → Namespace → Result ManifestError Namespace
union_with union [] = ok union
union_with union ((path, entry) ∷ rest) =
    ensure (agrees_with (lookup path union) entry) file_directory_collision
    >> union_with (insert path entry union) rest

unfoldable pub validate_cross_namespace :
    (Text → Text) → Namespace → Namespace → Result ManifestError (Unit {0})
unfolding validate_namespace union_with
validate_cross_namespace lower pc android =
    validate_namespace lower pc
    >> (validate_namespace lower android
        >> (union_with pc android >>= λ union. validate_namespace lower union))
