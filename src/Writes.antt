-- ===== src/Writes.antt =====
-- The program's own writes, which its watcher does not report: crates/rowd-core/src/internal_writes.rs. Times are seconds
-- of one clock. `ancestors` are the directories of `Path::parent` from a path up, and `inside` is `starts_with(root)` with
-- `!= root`. The registry is in the order of its texts; a `BTreeMap` of `PathBuf` is in that of their components. The order
-- decides which of two writes into one new directory `find_target` names for the directory.
pub mod Honesty
use rowd.Base.{
  ℕ, ◌+◌, Text, Map, text_eq, lookup, insert, remove, Option, none, some, Bool, true, false, not,
  ◌&&◌, ◌||◌, ltb, any, List, [], ◌∷◌, if◌then◌else◌,
}
use rowd.Model.{Entry, Manifest, entry_eq}

pub record Expected : Type 0 where
  pub entry : Entry
  pub parents : List Text
  pub finished : Bool
  pub expires : ℕ

abbrev pub Registry : Type 0
Registry = Map Expected

abbrev pub lives : ℕ → Expected → Bool
lives now e = not e.finished || ltb now e.expires

-- `retain`
unfoldable pub retain : ℕ → Registry → Registry
retain now [] = []
retain now ((path, e) ∷ rest) =
    let kept = retain now rest in if lives now e then (path, e) ∷ kept else kept

-- The directories that the installation will create, while they are inside the root.
unfoldable pub missing : (Text → Bool) → (Text → Bool) → List Text → List Text
missing inside exists [] = []
missing inside exists (p ∷ up) =
    let rest = missing inside exists up in
    if inside p then (if exists p then rest else p ∷ rest) else []

unfoldable pub register : ℕ → Text → List Text → Entry → Registry → Registry
unfolding retain
register now path parents entry writes =
    insert path (record { entry = entry; parents = parents; finished = false; expires = now + 30 })
      (retain now writes)

abbrev pub finished_at : ℕ → Text → Registry → Option Expected → Registry
finished_at now path writes none = writes
finished_at now path writes (some e) =
    insert path (record e { finished = true; expires = now + 30 }) writes

unfoldable pub complete : ℕ → Text → Registry → Registry
complete now path writes = finished_at now path writes (lookup path writes)

-- `Drop` of a write that was not completed.
unfoldable pub abandon : Text → Registry → Registry
abandon path writes = remove path writes

-- `find`
unfoldable pub find_target : Text → Bool → Registry → Option Text
find_target path created [] = none
find_target path created ((p, e) ∷ rest) =
    let later = find_target path created rest in
    if text_eq p path || (created && any (λ q. text_eq q path) e.parents) then some p else later

-- `true` where the file that was found has the size and the hash that are expected.
abbrev pub same_file : Option Entry → Entry → Bool
same_file none e = false
same_file (some d) e = entry_eq d e

abbrev pub compared : Manifest → Text → Registry → Expected → Bool × Registry
compared disk target writes e =
    if same_file (lookup target disk) e.entry then (true, writes) else (false, remove target writes)

abbrev pub settled : Manifest → Text → Registry → Option Expected → Bool × Registry
settled disk target writes none = (false, writes)
settled disk target writes (some e) =
    if e.finished then compared disk target writes e else (false, writes)

-- After the wait, which ends when the write is finished or gone, or at the deadline.
abbrev pub after_wait : Manifest → Registry → Registry → Option Text → Bool × Registry
after_wait disk writes waited none = (false, writes)
after_wait disk writes waited (some target) = settled disk target waited (lookup target waited)

-- `waited` is the registry at the end of the wait, and `disk` the files then.
unfoldable pub matches : ℕ → Text → Bool → Registry → Registry → Manifest → Bool × Registry
unfolding retain find_target
matches now path created writes waited disk =
    after_wait disk (retain now writes) waited (find_target path created (retain now writes))
