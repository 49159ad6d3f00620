-- ===== src/Model/Conflicts.antt =====
-- `conflict_path` of crates/rowd-core/src/model.rs. SHA-256 is not code of the repository: `digest`
-- stands for the hexadecimal SHA-256 of the path's bytes.
use rowd.Base.{Text, codes, List, [], ◌∷◌, ◌++◌, Bool, true, false, ◌&&◌, ◌==◌, ◌≡◌, refl, arith}
use rowd.Paths.{split, slash}

-- `rsplit(d).next()`
last_part : List Text → Text
last_part [] = codes "arquivo"
last_part (p ∷ []) = p
last_part (p ∷ q ∷ ps) = last_part (q ∷ ps)

abbrev pub conflict_folder : Text
conflict_folder = codes "Rowd Conflicts/"

unfoldable pub conflict_path : (Text → Text) → Text → Text → Text
unfolding last_part split
conflict_path digest path hash =
    conflict_folder ++ (digest path ++ (slash ∷ (hash ++ (slash ∷ last_part (split slash path)))))

-- `str::starts_with`
unfoldable pub starts_with : Text → Text → Bool
starts_with s [] = true
starts_with [] (d ∷ t) = false
starts_with (c ∷ s) (d ∷ t) = (c == d) && starts_with s t

starts_with-append : (s t : Text) → starts_with (s ++ t) s ≡ true
unfolding starts_with
starts_with-append [] [] = refl
starts_with-append [] (c ∷ t) = refl
starts_with-append (c ∷ s) t = ground (arith, starts_with-append s t)

-- Every conflict copy lies in the conflict folder.
pub conflict_path-starts_with :
    (digest : Text → Text) (path hash : Text)
    → starts_with (conflict_path digest path hash) conflict_folder ≡ true
unfolding conflict_path
conflict_path-starts_with digest path hash = starts_with-append conflict_folder _
